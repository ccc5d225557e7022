-- ===== src/Tests/Fields.antt =====
-- Masks, numbers, texts and the appliers of internal/dcs/pep.
use poc_dcs.Common.{
  String, Text, bytes, pos, ◌≡◌, refl, [], ◌∷◌, some, string_eq, lookup, insert, elem, true, false,
  arith, Result, ok, Map,
}
use poc_dcs.Types.{allow, decrypt, mask_after_decrypt, Decision}
use poc_dcs.Strconv.{itoa, atoi}
use poc_dcs.Kms.{local_encrypt}
use poc_dcs.Pep.Mask.{mask_string, apply_mask}
use poc_dcs.Pep.Payload.{Decryptor, ApplyResult, text, int, null}
use poc_dcs.Pep.Film
use poc_dcs.Pep.Film.Secrecy.{apply_noninterference}
use poc_dcs.Pep.Spectator
use poc_dcs.Pep.Spectator.Outcome.{apply_outcome}
use poc_dcs.Kms.{decryptor, local_client}
use poc_dcs.Strconv.{itoa}
use poc_dcs.Enforcer.Stored.{decrypted_time, apply_time-local_encrypt}
use poc_dcs.Tests.Fixtures.{start, base64}

-- A service that takes a ciphertext for its plaintext, and keeps no state.
abbrev plain_text : Text → Result Text
plain_text ct = ok ct

abbrev reading_kms : Decryptor (Unit {0})
reading_kms = record { decrypt = λ ct s. (plain_text ct, s) }

abbrev film_decision : Decision
film_decision = record {
  allow = true;
  field_actions = ("title", allow) ∷ ("time_elapsed", mask_after_decrypt) ∷ [];
  reason = "read_allowed";
  hash = "";
}

abbrev row : Text → Film.FilmRow
row ct = record { title = bytes "Alien"; time_elapsed_ct = ct }

apply_noninterference_example :
    (Film.apply reading_kms true film_decision (row (bytes "91")) tt).0
    ≡ (Film.apply reading_kms true film_decision (row (bytes "47")) tt).0
unfolding lookup
apply_noninterference_example =
    apply_noninterference reading_kms reading_kms film_decision (row (bytes "91"))
      (row (bytes "47")) tt tt (λ allowed. (refl, refl))

abbrev spectator_decision : Decision
spectator_decision = record {
  allow = true;
  field_actions = ("name", mask_after_decrypt) ∷ ("age", decrypt) ∷ [];
  reason = "read_allowed";
  hash = "";
}

abbrev visit : Map String Text
visit = ("name", bytes "alice") ∷ ("age", bytes "40") ∷ ("external_id", bytes "x-9") ∷ []

abbrev spectator_shown : ApplyResult
spectator_shown = record {
  payload = ("name", text (bytes "a***")) ∷ ("age", int (pos 40)) ∷ ("external_id", null) ∷ [];
  decrypted = "age" ∷ [];
  masked = "name" ∷ [];
  denied = "external_id" ∷ [];
}

spectator_shown_lem :
    (Spectator.apply reading_kms spectator_decision visit tt).0 ≡ ok spectator_shown
unfolding Spectator.apply Spectator.apply_fields Spectator.apply_field Spectator.decrypted_value
    lookup insert atoi apply_mask mask_string
spectator_shown_lem = refl

apply_outcome_example :
    (lookup "age" spectator_shown.payload ≡ some (int (pos 40)))
    × (elem "age" spectator_shown.decrypted ≡ true)
    × (elem "age" spectator_shown.masked ≡ false)
    × (elem "age" spectator_shown.denied ≡ false)
unfolding lookup atoi Spectator.decrypted_value
apply_outcome_example =
    apply_outcome reading_kms plain_text (λ ct s. refl) spectator_decision visit tt spectator_shown
      refl refl spectator_shown_lem "age"

apply_time-local_encrypt_example :
    (Film.apply_time
      (decryptor (local_client base64))
      (local_encrypt base64 (itoa (pos 90)))
      decrypt
      []
      start).0
    ≡ ok (decrypted_time (int (pos 90)) [])
unfolding itoa
apply_time-local_encrypt_example =
    apply_time-local_encrypt base64 (pos 90) [] start (omega arith) refl (refl, (refl, tt))
