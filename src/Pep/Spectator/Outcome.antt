-- ===== src/Pep/Spectator/Outcome.antt =====
-- What the loop over the fields of a spectator returns, whatever the order.
use poc_dcs.Action.{bind-ok}
use poc_dcs.Common.{
  String, Text, Bool, true, false, not, ◌&&◌, ◌||◌, ◌≡◌, refl, sym, ap, ◌∙◌, subst, Option, none,
  some, List, [], ◌∷◌, ◌++◌, Map, lookup, insert, keys, distinct, elem, string_eq, ◌==◌,
  if◌then◌else◌, Result, ok, arith, eq_iff, lookup-insert, Bool-cases, inl, inr,
}
use poc_dcs.Action.{map_result-eq-ok, result-bind-pure}
use poc_dcs.Types.{Decision, FieldAction, allow, decrypt, mask_after_decrypt, deny, other}
use poc_dcs.Pep.Mask.{apply_mask}
use poc_dcs.Pep.Payload.{Value, null, text, Decryptor, ApplyResult}
use poc_dcs.Pep.Spectator.{
  empty_result, decrypted_value, apply_field, apply_fields, apply, deny_field,
}

-- Ciphertexts are decrypted by a function, whatever the state of the service.
abbrev pub Answers : {S : Type 0} → Decryptor S → (Text → Result Text) → Type 0
Answers {S} kms plain = (ct : Text) (s : S) → (kms.decrypt ct s).0 ≡ plain ct

abbrev pub is_decrypt : Option FieldAction → Bool
is_decrypt (some decrypt) = true
is_decrypt _ = false

abbrev pub is_mask : Option FieldAction → Bool
is_mask (some mask_after_decrypt) = true
is_mask _ = false

abbrev pub is_denied : Option FieldAction → Bool
is_denied action = not (is_decrypt action) && not (is_mask action)

-- What the caller is shown of a field.
abbrev pub shown_value : Option FieldAction → String → Result Text → Value
shown_value (some decrypt) field (ok p) = decrypted_value field p
shown_value (some mask_after_decrypt) field (ok p) = text (apply_mask field p)
shown_value _ field p = null

elem-append : (g f : String) (xs : List String) → elem g (xs ++ f ∷ []) ≡ (elem g xs || (f == g))
elem-append g f [] = ground arith
elem-append g f (x ∷ xs) = ground (arith, elem-append g f xs)

lookup_of_not_elem :
    {V : Type 0} (g : String) (m : Map String V) → elem g (keys m) ≡ false → lookup g m ≡ none
unfolding lookup
lookup_of_not_elem g [] h = refl
lookup_of_not_elem g ((j, v) ∷ m) h = ground (arith, lookup_of_not_elem g m)

-- One round changes the entry of its field, and adds the field to the list of its action.
record Round (action : Option FieldAction) (field : String) (answer : Result Text)
    (r r' : ApplyResult) : Type 0 where
  payload :
      (g : String)
      → lookup g r'.payload
        ≡ (if field == g then some (shown_value action field answer) else lookup g r.payload)
  decrypted :
      (g : String) → elem g r'.decrypted ≡ (elem g r.decrypted || (field == g && is_decrypt action))
  masked : (g : String) → elem g r'.masked ≡ (elem g r.masked || (field == g && is_mask action))
  denied : (g : String) → elem g r'.denied ≡ (elem g r.denied || (field == g && is_denied action))

deny_field-Round :
    (action : Option FieldAction) (field : String) (answer : Result Text) (r : ApplyResult)
    → is_decrypt action ≡ false
    → is_mask action ≡ false
    → shown_value action field answer ≡ null
    → Round action field answer r (deny_field field r)
deny_field-Round action field answer r not_decrypted not_masked shown = record {
  payload = λ g. rw shown (lookup-insert field g null r.payload);
  decrypted = λ g. ground arith;
  masked = λ g. ground arith;
  denied = λ g. ground (arith, elem-append g field r.denied);
}

decrypt-Round :
    (field : String) (p : Text) (r : ApplyResult)
    → Round (some decrypt) field (ok p) r (record r {
      payload = insert field (decrypted_value field p) r.payload;
      decrypted = r.decrypted ++ field ∷ [];
    })
decrypt-Round field p r = record {
  payload = λ g. lookup-insert field g (decrypted_value field p) r.payload;
  decrypted = λ g. ground (arith, elem-append g field r.decrypted);
  masked = λ g. ground arith;
  denied = λ g. ground arith;
}

mask-Round :
    (field : String) (p : Text) (r : ApplyResult)
    → Round (some mask_after_decrypt) field (ok p) r (record r {
      payload = insert field (text (apply_mask field p)) r.payload;
      masked = r.masked ++ field ∷ [];
    })
mask-Round field p r = record {
  payload = λ g. lookup-insert field g (text (apply_mask field p)) r.payload;
  decrypted = λ g. ground arith;
  masked = λ g. ground (arith, elem-append g field r.masked);
  denied = λ g. ground arith;
}

denied-Round :
    (action : Option FieldAction) (field : String) (answer : Result Text) (r r' : ApplyResult)
    → is_decrypt action ≡ false
    → is_mask action ≡ false
    → shown_value action field answer ≡ null
    → deny_field field r ≡ r'
    → Round action field answer r r'
denied-Round action field answer r r' not_decrypted not_masked shown same =
    subst (Round action field answer r) same
      (deny_field-Round action field answer r not_decrypted not_masked shown)

module _ {S : Type 0} (kms : Decryptor S) (plain : Text → Result Text)
    (answers : Answers kms plain) where
  answer-eq : (ct p : Text) (s : S) → (kms.decrypt ct s).0 ≡ ok p → plain ct ≡ ok p
  answer-eq ct p s h = sym (answers ct s) ∙ h

  apply_field-Round :
      (action : Option FieldAction) (field : String) (ct : Text) (r r' : ApplyResult) (s : S)
      → (apply_field kms action field ct r s).0 ≡ ok r'
      → Round action field (plain ct) r r'
  unfolding apply_field
  apply_field-Round (some decrypt) field ct r r' s h =
      let (p, answered, same) =
        map_result-eq-ok _ (kms.decrypt ct s).0 (sym (result-bind-pure (kms.decrypt ct) _ s) ∙ h) in
      subst (Round (some decrypt) field (plain ct) r) same
        (rw (answer-eq ct p s answered) (decrypt-Round field p r))
  apply_field-Round (some mask_after_decrypt) field ct r r' s h =
      let (p, answered, same) =
        map_result-eq-ok _ (kms.decrypt ct s).0 (sym (result-bind-pure (kms.decrypt ct) _ s) ∙ h) in
      subst (Round (some mask_after_decrypt) field (plain ct) r) same
        (rw (answer-eq ct p s answered) (mask-Round field p r))
  apply_field-Round none field ct r r' s h =
      denied-Round none field (plain ct) r r' refl refl refl (cc)
  apply_field-Round (some deny) field ct r r' s h =
      denied-Round (some deny) field (plain ct) r r' refl refl refl (cc)
  apply_field-Round (some allow) field ct r r' s h =
      denied-Round (some allow) field (plain ct) r r' refl refl refl (cc)
  apply_field-Round (some (other a)) field ct r r' s h =
      denied-Round (some (other a)) field (plain ct) r r' refl refl refl (cc)

  -- What the entry of a field becomes.
  abbrev entry : Map String FieldAction → String → Option Text → Option Value → Option Value
  entry actions g none old = old
  entry actions g (some ct) old = some (shown_value (lookup g actions) g (plain ct))

  abbrev listed : Map String FieldAction → (Option FieldAction → Bool) → String → Option Text → Bool
  listed actions p g none = false
  listed actions p g (some ct) = p (lookup g actions)

  record Rounds (actions : Map String FieldAction) (fields : Map String Text) (r r' : ApplyResult)
      : Type 0 where
    payload :
        (g : String) → lookup g r'.payload ≡ entry actions g (lookup g fields) (lookup g r.payload)
    decrypted :
        (g : String)
        → elem g r'.decrypted
          ≡ (elem g r.decrypted || listed actions is_decrypt g (lookup g fields))
    masked :
        (g : String)
        → elem g r'.masked ≡ (elem g r.masked || listed actions is_mask g (lookup g fields))
    denied :
        (g : String)
        → elem g r'.denied ≡ (elem g r.denied || listed actions is_denied g (lookup g fields))

  listed-cons :
      (actions : Map String FieldAction) (field : String) (ct : Text) (fields : Map String Text)
      (p : Option FieldAction → Bool) (g : String) (old : Bool)
      → elem field (keys fields) ≡ false
      → ((old || (field == g && p (lookup field actions))) || listed actions p g (lookup g fields))
        ≡ (old || listed actions p g (lookup g ((field, ct) ∷ fields)))
  unfolding lookup
  listed-cons actions field ct fields p g old once = elim (Bool-cases (field == g)) [
    | inr differs ↦ rw differs (ground arith)
    | inl same ↦
        let e = (eq_iff field g).0 same in
        let gone : lookup g fields ≡ none =
          subst (λ x. lookup x fields ≡ none) e (lookup_of_not_elem field fields once) in
        rw (same, gone, ap (λ x. lookup x actions) e) (ground arith)
  ]

  Rounds-cons :
      (actions : Map String FieldAction) (field : String) (ct : Text) (fields : Map String Text)
      (r r₁ r' : ApplyResult)
      → elem field (keys fields) ≡ false
      → Round (lookup field actions) field (plain ct) r r₁
      → Rounds actions fields r₁ r'
      → Rounds actions ((field, ct) ∷ fields) r r'
  unfolding lookup
  Rounds-cons actions field ct fields r r₁ r' once one more = record {
    payload = λ g. elim (Bool-cases (field == g)) [
      | inr differs ↦ ground (arith, one.payload g, more.payload g)
      | inl same ↦
          let e = (eq_iff field g).0 same in
          let gone : lookup g fields ≡ none =
            subst (λ x. lookup x fields ≡ none) e (lookup_of_not_elem field fields once) in
          let now : lookup g r₁.payload ≡ some (shown_value (lookup g actions) g (plain ct)) =
            subst (λ x. lookup g r₁.payload ≡ some (shown_value (lookup x actions) x (plain ct))) e
              (one.payload g ∙ rw same refl) in
          ground (arith, more.payload g)
    ];
    decrypted = λ g.
        more.decrypted g
        ∙ ap (λ b. b || listed actions is_decrypt g (lookup g fields)) (one.decrypted g)
        ∙ listed-cons actions field ct fields is_decrypt g (elem g r.decrypted) once;
    masked = λ g.
        more.masked g
        ∙ ap (λ b. b || listed actions is_mask g (lookup g fields)) (one.masked g)
        ∙ listed-cons actions field ct fields is_mask g (elem g r.masked) once;
    denied = λ g.
        more.denied g
        ∙ ap (λ b. b || listed actions is_denied g (lookup g fields)) (one.denied g)
        ∙ listed-cons actions field ct fields is_denied g (elem g r.denied) once;
  }

  apply_fields-Rounds :
      (actions : Map String FieldAction) (fields : Map String Text) (r r' : ApplyResult) (s : S)
      → distinct (keys fields) ≡ true
      → (apply_fields kms actions fields r s).0 ≡ ok r'
      → Rounds actions fields r r'
  unfolding apply_fields lookup
  apply_fields-Rounds actions [] r r' s once h = subst (Rounds actions [] r) {x = r} (cc) (record {
    payload = λ g. refl;
    decrypted = λ g. ground arith;
    masked = λ g. ground arith;
    denied = λ g. ground arith;
  })
  apply_fields-Rounds actions ((field, ct) ∷ fields) r r' s once h =
      let (r₁, s₁, first, rest) =
        bind-ok (apply_field kms (lookup field actions) field ct r) _ s h in
      let one = apply_field-Round (lookup field actions) field ct r r₁ s first in
      let more = apply_fields-Rounds actions fields r₁ r' s₁ (ground arith) rest in
      Rounds-cons actions field ct fields r r₁ r' (ground arith) one more

  -- What an allowed read returns. The payload holds exactly the fields that were visited, each with
  -- the value of its action: the plaintext for `decrypt`, its mask for `mask_after_decrypt`, and
  -- nothing for any other action and for a field that the decision does not name. Each visited field
  -- stands in the one list that tells what was done.
  pub apply_outcome :
      (decision : Decision) (order : Map String Text) (s : S) (r : ApplyResult)
      → decision.allow ≡ true
      → distinct (keys order) ≡ true
      → (apply kms decision order s).0 ≡ ok r
      → (g : String)
      → (lookup g r.payload ≡ entry decision.field_actions g (lookup g order) none)
        × (elem g r.decrypted ≡ listed decision.field_actions is_decrypt g (lookup g order))
        × (elem g r.masked ≡ listed decision.field_actions is_mask g (lookup g order))
        × (elem g r.denied ≡ listed decision.field_actions is_denied g (lookup g order))
  unfolding apply lookup
  apply_outcome decision order s r allowed once h g =
      let rounds =
        apply_fields-Rounds decision.field_actions order empty_result r s once (rw allowed at h) in
      (rounds.payload g, rounds.decrypted g, rounds.masked g, rounds.denied g)

  -- Two visits of the same ciphertexts in different orders show the same.
  pub apply_any_order :
      (decision : Decision) (order order' : Map String Text) (s s' : S) (r r' : ApplyResult)
      → decision.allow ≡ true
      → distinct (keys order) ≡ true
      → distinct (keys order') ≡ true
      → ((g : String) → lookup g order ≡ lookup g order')
      → (apply kms decision order s).0 ≡ ok r
      → (apply kms decision order' s').0 ≡ ok r'
      → (g : String)
      → (lookup g r.payload ≡ lookup g r'.payload)
        × (elem g r.decrypted ≡ elem g r'.decrypted)
        × (elem g r.masked ≡ elem g r'.masked)
        × (elem g r.denied ≡ elem g r'.denied)
  apply_any_order decision order order' s s' r r' allowed once once' same h h' g =
      let a = apply_outcome decision order s r allowed once h g in
      let b = apply_outcome decision order' s' r' allowed once' h' g in
      let e = same g in (cc (a.0, b.0, e), cc (a.1, b.1, e), cc (a.2, b.2, e), cc (a.3, b.3, e))
