-- ===== src/Pep/Film.antt =====
-- internal/dcs/pep/film.go: the decision applied to a film.
pub mod Secrecy
use poc_dcs.Common.{
  String, Text, bytes, Bool, not, Option, none, some, [], ◌∷◌, ◌++◌, Map, lookup, insert, string_eq,
  length, leb, ℤ, if◌then◌else◌,
}
use poc_dcs.Action.{Act, pure, ◌>>=◌}
use poc_dcs.Strconv.{atoi}
use poc_dcs.Types.{Decision, FieldAction, allow, decrypt, mask_after_decrypt, deny, other}
use poc_dcs.Pep.Mask.{prefix}
use poc_dcs.Pep.Payload.{Value, null, int, text, Decryptor, ApplyResult}

pub record FilmRow : Type 0 where
  pub title : Text
  pub time_elapsed_ct : Text

-- `maskString` of film.go, which is not `MaskString`: every short text becomes two stars.
unfoldable pub mask_string : Text → Text
mask_string v = if leb (length v) 2 then bytes "**" else prefix 1 v ++ bytes "***"

unfoldable pub apply_title : Text → Option FieldAction → Map String Value → Map String Value
unfolding mask_string
apply_title title none out = out
apply_title title (some allow) out = insert "title" (text title) out
apply_title title (some mask_after_decrypt) out = insert "title" (text (mask_string title)) out
apply_title title (some deny) out = insert "title" null out
apply_title title (some _) out = insert "title" (text title) out

-- The value of a missing key: the zero value of the string type.
abbrev pub action_or_zero : Option FieldAction → FieldAction
action_or_zero none = other ""
action_or_zero (some action) = action

abbrev pub int_or_text : Text → Option ℤ → Value
int_or_text plain none = text plain
int_or_text plain (some n) = int n

abbrev pub refusal : ApplyResult
refusal = record {
  payload = [];
  decrypted = [];
  masked = [];
  denied = "title" ∷ "time_elapsed" ∷ [];
}

abbrev pub plain_result : Map String Value → ApplyResult
plain_result out = record { payload = out; decrypted = []; masked = []; denied = [] }

module _ {S : Type 0} (kms : Decryptor S) where
  unfoldable pub apply_time : Text → FieldAction → Map String Value → Act S ApplyResult
  unfolding mask_string
  apply_time ct decrypt out = do
    plain ← kms.decrypt ct
    pure (record {
      payload = insert "time_elapsed" (int_or_text plain (atoi plain)) out;
      decrypted = "time_elapsed" ∷ [];
      masked = [];
      denied = [];
    })
  apply_time ct mask_after_decrypt out = do
    plain ← kms.decrypt ct
    pure (record {
      payload = insert "time_elapsed" (text (mask_string plain)) out;
      decrypted = [];
      masked = "time_elapsed" ∷ [];
      denied = [];
    })
  apply_time ct deny out = pure (record {
    payload = insert "time_elapsed" null out;
    decrypted = [];
    masked = [];
    denied = "time_elapsed" ∷ [];
  })
  apply_time ct _ out = pure (plain_result (insert "time_elapsed" (text ct) out))

  unfoldable pub apply : (dcs_enabled : Bool) → Decision → FilmRow → Act S ApplyResult
  unfolding apply_time apply_title
  apply dcs_enabled decision row =
      if not decision.allow
      then pure refusal
      else if not dcs_enabled
      then pure (
          plain_result
            (insert "time_elapsed" (text row.time_elapsed_ct) (insert "title" (text row.title) [])))
      else apply_time row.time_elapsed_ct
          (action_or_zero (lookup "time_elapsed" decision.field_actions))
          (apply_title row.title (lookup "title" decision.field_actions) [])
