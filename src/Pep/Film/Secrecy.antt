-- ===== src/Pep/Film/Secrecy.antt =====
-- What the payload of a film depends on, and what is recorded about it.
use poc_dcs.Action.{map_result-eq-ok}
use poc_dcs.Common.{subst}
use poc_dcs.Action.{map_result, result-bind-pure}
use poc_dcs.Common.{Bool-cases, inl, inr, insert, ap, sym, ◌∙◌}
use poc_dcs.Pep.Payload.{text}
use poc_dcs.Common.{
  String, Text, true, ◌≡◌, ◌↔◌, refl, Option, none, some, [], ◌∷◌, lookup, string_eq, length, leb,
  if◌then◌else◌, Map, Result, ok, err, arith, elem,
}
use poc_dcs.Types.{Decision, FieldAction, allow, decrypt, mask_after_decrypt, deny, other}
use poc_dcs.Pep.Mask.{prefix}
use poc_dcs.Pep.Payload.{Value, Decryptor, ApplyResult}
use poc_dcs.Pep.Film.{FilmRow, mask_string, apply_title, apply_time, apply, action_or_zero}

-- What the stars of film.go still tell: the first byte of a text of more than two bytes.
abbrev pub film_outline : Text → Option Text
film_outline v = if leb (length v) 2 then none else some (prefix 1 v)

mask_string_hides : (v w : Text) → film_outline v ≡ film_outline w → mask_string v ≡ mask_string w
unfolding mask_string
mask_string_hides v w h = ground arith

-- Titles that a decision does not tell apart.
abbrev pub SameTitle : Option FieldAction → Text → Text → Type 0
SameTitle none t u = Unit
SameTitle (some deny) t u = Unit
SameTitle (some mask_after_decrypt) t u = film_outline t ≡ film_outline u
SameTitle (some _) t u = t ≡ u

abbrev pub outline_of : Result Text → Result (Option Text)
outline_of (ok v) = ok (film_outline v)
outline_of (err e) = err e

-- Ciphertexts, with what the key management service answers on them, that an action does not tell
-- apart.
abbrev pub SameTime : FieldAction → Text × Result Text → Text × Result Text → Type 0
SameTime deny t u = Unit
SameTime decrypt (c, p) (d, q) = p ≡ q
SameTime mask_after_decrypt (c, p) (d, q) = outline_of p ≡ outline_of q
SameTime _ (c, p) (d, q) = c ≡ d

apply_title-same :
    (action : Option FieldAction) (t u : Text) (out : Map String Value)
    → SameTitle action t u
    → apply_title t action out ≡ apply_title u action out
unfolding apply_title
apply_title-same none t u out h = refl
apply_title-same (some deny) t u out h = refl
apply_title-same (some mask_after_decrypt) t u out h = cc (mask_string_hides t u h)
apply_title-same (some _) t u out h = cc h

shown_mask : Map String Value → Text → ApplyResult
shown_mask out plain = record {
  payload = insert "time_elapsed" (text (mask_string plain)) out;
  decrypted = [];
  masked = "time_elapsed" ∷ [];
  denied = [];
}

map_result-shown_mask :
    (out : Map String Value) (p q : Result Text)
    → outline_of p ≡ outline_of q
    → map_result (shown_mask out) p ≡ map_result (shown_mask out) q
unfolding shown_mask
map_result-shown_mask out (ok p) (ok q) h = cc (mask_string_hides p q (cc))
map_result-shown_mask out (ok p) (err e) h = cc
map_result-shown_mask out (err e) (ok q) h = cc
map_result-shown_mask out (err e) (err e') h = cc

-- The lists of a result tell the action on the time.
abbrev pub Recorded : FieldAction → ApplyResult → Type 0
Recorded action r =
    ((elem "time_elapsed" r.decrypted ≡ true) ↔ (action ≡ decrypt))
    × ((elem "time_elapsed" r.masked ≡ true) ↔ (action ≡ mask_after_decrypt))
    × ((elem "time_elapsed" r.denied ≡ true) ↔ (action ≡ deny))

module _ {S : Type 0} where
  apply_time-same :
      (kms kms' : Decryptor S) (action : FieldAction) (ct ct' : Text) (out : Map String Value)
      (s s' : S)
      → SameTime action (ct, (kms.decrypt ct s).0) (ct', (kms'.decrypt ct' s').0)
      → (apply_time kms ct action out s).0 ≡ (apply_time kms' ct' action out s').0
  unfolding apply_time shown_mask
  apply_time-same kms kms' allow ct ct' out s s' h = cc h
  apply_time-same kms kms' decrypt ct ct' out s s' h =
      result-bind-pure (kms.decrypt ct) _ s
      ∙ ap (map_result _) h
      ∙ sym (result-bind-pure (kms'.decrypt ct') _ s')
  apply_time-same kms kms' mask_after_decrypt ct ct' out s s' h =
      result-bind-pure (kms.decrypt ct) (shown_mask out) s
      ∙ map_result-shown_mask out (kms.decrypt ct s).0 (kms'.decrypt ct' s').0 h
      ∙ sym (result-bind-pure (kms'.decrypt ct') (shown_mask out) s')
  apply_time-same kms kms' deny ct ct' out s s' h = refl
  apply_time-same kms kms' (other a) ct ct' out s s' h = cc h

  -- What the film applier returns, with the DCS on, depends only on what the decision lets through: a
  -- denied title or time does not matter at all, and a masked one only by its outline. On a refusal
  -- nothing matters. The callers of the applier are not considered.
  pub apply_noninterference :
      (kms kms' : Decryptor S) (decision : Decision) (row row' : FilmRow) (s s' : S)
      → (decision.allow ≡ true
          → SameTitle (lookup "title" decision.field_actions) row.title row'.title
            × SameTime
                (action_or_zero (lookup "time_elapsed" decision.field_actions))
                (row.time_elapsed_ct, (kms.decrypt row.time_elapsed_ct s).0)
                (row'.time_elapsed_ct, (kms'.decrypt row'.time_elapsed_ct s').0))
      → (apply kms true decision row s).0 ≡ (apply kms' true decision row' s').0
  unfolding apply
  apply_noninterference kms kms' decision row row' s s' h = elim (Bool-cases decision.allow) [
    | inr refused ↦ rw refused
    | inl allowed ↦
        let (same_title, same_time) = h allowed in
        let action = lookup "title" decision.field_actions in
        rw (allowed, apply_title-same action row.title row'.title [] same_title)
          (apply_time-same kms kms' (action_or_zero (lookup "time_elapsed" decision.field_actions))
            row.time_elapsed_ct row'.time_elapsed_ct (apply_title row'.title action []) s s'
            same_time)
  ]

  apply_time-Recorded :
      (kms : Decryptor S) (action : FieldAction) (ct : Text) (out : Map String Value) (s : S)
      (r : ApplyResult)
      → (apply_time kms ct action out s).0 ≡ ok r
      → Recorded action r
  unfolding apply_time
  apply_time-Recorded kms decrypt ct out s r h =
      let (p, answered, same) =
        map_result-eq-ok _ (kms.decrypt ct s).0 (sym (result-bind-pure (kms.decrypt ct) _ s) ∙ h) in
      subst (Recorded decrypt) same (ground arith)
  apply_time-Recorded kms mask_after_decrypt ct out s r h =
      let (p, answered, same) =
        map_result-eq-ok _ (kms.decrypt ct s).0 (sym (result-bind-pure (kms.decrypt ct) _ s) ∙ h) in
      subst (Recorded mask_after_decrypt) same (ground arith)
  apply_time-Recorded kms deny ct out s r h = ground arith
  apply_time-Recorded kms allow ct out s r h = ground arith
  apply_time-Recorded kms (other a) ct out s r h = ground arith

  -- What an allowed read with the DCS on records about the time is what was done: it is in exactly
  -- the list of its action, and in none if it was returned as it is stored.
  pub apply-Recorded :
      (kms : Decryptor S) (decision : Decision) (row : FilmRow) (s : S) (r : ApplyResult)
      → decision.allow ≡ true
      → (apply kms true decision row s).0 ≡ ok r
      → Recorded (action_or_zero (lookup "time_elapsed" decision.field_actions)) r
  unfolding apply
  apply-Recorded kms decision row s r allowed h =
      apply_time-Recorded kms (action_or_zero (lookup "time_elapsed" decision.field_actions))
        row.time_elapsed_ct (apply_title row.title (lookup "title" decision.field_actions) []) s r
        (rw allowed at h)
