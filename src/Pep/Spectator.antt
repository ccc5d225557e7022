-- ===== src/Pep/Spectator.antt =====
-- internal/dcs/pep/spectator_applier.go: the decision applied to a spectator. Go visits the map of
-- the three ciphertexts in any order: the order is an argument.
pub mod Outcome
use poc_dcs.Common.{
  String, Text, Bool, Option, none, some, List, [], ◌∷◌, ◌++◌, Map, lookup, insert, string_eq, ◌==◌,
  not, if◌then◌else◌,
}
use poc_dcs.Action.{Act, pure, ◌>>=◌}
use poc_dcs.Strconv.{atoi}
use poc_dcs.Types.{Decision, FieldAction, allow, decrypt, mask_after_decrypt, deny, other}
use poc_dcs.Pep.Mask.{apply_mask}
use poc_dcs.Pep.Payload.{Value, null, int, text, Decryptor, ApplyResult}

pub record SpectatorRow : Type 0 where
  pub id : Text
  pub hall_id : Text
  pub name_ct : Text
  pub age_ct : Text
  pub external_id_ct : Text

-- The map `fieldMap`, in the order of the source.
abbrev pub field_map : SpectatorRow → Map String Text
field_map row =
    ("name", row.name_ct) ∷ ("age", row.age_ct) ∷ ("external_id", row.external_id_ct) ∷ []

abbrev pub empty_result : ApplyResult
empty_result = record { payload = []; decrypted = []; masked = []; denied = [] }

abbrev pub refusal : ApplyResult
refusal = record empty_result { denied = "name" ∷ "age" ∷ "external_id" ∷ [] }

abbrev pub int_or_text : Text → Value
int_or_text plaintext = elim (atoi plaintext) [ none ↦ text plaintext | some age ↦ int age ]

-- Only the age is converted to an integer.
unfoldable pub decrypted_value : String → Text → Value
decrypted_value field plaintext = if field == "age" then int_or_text plaintext else text plaintext

abbrev pub deny_field : String → ApplyResult → ApplyResult
deny_field field r = record r {
  payload = insert field null r.payload;
  denied = r.denied ++ field ∷ [];
}

module _ {S : Type 0} (kms : Decryptor S) where
  -- One round of the loop, by the action that the decision has for the field.
  unfoldable pub apply_field : Option FieldAction → String → Text → ApplyResult → Act S ApplyResult
  unfolding decrypted_value
  apply_field none field ct r = pure (deny_field field r)
  apply_field (some deny) field ct r = pure (deny_field field r)
  apply_field (some decrypt) field ct r = do
    plaintext ← kms.decrypt ct
    pure (record r {
      payload = insert field (decrypted_value field plaintext) r.payload;
      decrypted = r.decrypted ++ field ∷ [];
    })
  apply_field (some mask_after_decrypt) field ct r = do
    plaintext ← kms.decrypt ct
    pure (record r {
      payload = insert field (text (apply_mask field plaintext)) r.payload;
      masked = r.masked ++ field ∷ [];
    })
  apply_field (some _) field ct r = pure (deny_field field r)

  unfoldable pub apply_fields :
      Map String FieldAction → Map String Text → ApplyResult → Act S ApplyResult
  unfolding apply_field
  apply_fields actions [] r = pure r
  apply_fields actions ((field, ct) ∷ fields) r = do
    r' ← apply_field (lookup field actions) field ct r
    apply_fields actions fields r'

  -- `order` is the map `field_map row` as Go visits it.
  unfoldable pub apply : Decision → (order : Map String Text) → Act S ApplyResult
  unfolding apply_fields
  apply decision order =
      if not decision.allow
      then pure refusal
      else apply_fields decision.field_actions order empty_result
