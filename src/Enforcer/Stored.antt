-- ===== src/Enforcer/Stored.antt =====
-- What is encrypted when a film is created is what an authorized reader is shown.
use poc_dcs.Common.{String, ℤ, ◌≡◌, ap, ◌∙◌, [], ◌∷◌, some, ok, Map, insert, string_eq}
use poc_dcs.Action.{map_result, result-bind-pure}
use poc_dcs.Strconv.{itoa, atoi}
use poc_dcs.Strconv.RoundTrip.{IsInt, atoi-itoa}
use poc_dcs.Types.{decrypt}
use poc_dcs.World.{World}
use poc_dcs.Kms.{Base64, local_client, local_encrypt, decryptor}
use poc_dcs.Kms.Lookup.{HasNoBlanks, local_decrypt-encrypt}
use poc_dcs.Pep.Payload.{Value, int, ApplyResult}
use poc_dcs.Pep.Film.{apply_time, int_or_text}

abbrev pub decrypted_time : Value → Map String Value → ApplyResult
decrypted_time value out = record {
  payload = insert "time_elapsed" value out;
  decrypted = "time_elapsed" ∷ [];
  masked = [];
  denied = [];
}

module _ (base64 : Base64) where
  -- With the local client, a 64-bit time that was encrypted as its decimal print is shown as the same
  -- integer under the action `decrypt`, if base64 decodes what it encodes, to a text without blanks.
  pub apply_time-local_encrypt :
      (n : ℤ) (out : Map String Value) (w : World)
      → IsInt n
      → base64.decode (base64.encode (itoa n)) ≡ some (itoa n)
      → HasNoBlanks (base64.encode (itoa n))
      → (apply_time
          (decryptor (local_client base64))
          (local_encrypt base64 (itoa n))
          decrypt
          out
          w).0
        ≡ ok (decrypted_time (int n) out)
  unfolding apply_time local_client
  apply_time-local_encrypt n out w in_range decoded no_blanks =
      let kms = decryptor (local_client base64) in
      result-bind-pure (kms.decrypt (local_encrypt base64 (itoa n)))
        (λ plain. decrypted_time (int_or_text plain (atoi plain)) out) w
      ∙ ap (map_result (λ plain. decrypted_time (int_or_text plain (atoi plain)) out))
          (local_decrypt-encrypt base64 (itoa n) decoded no_blanks)
      ∙ ap (λ o. ok (decrypted_time (int_or_text (itoa n) o) out)) (atoi-itoa n in_range)
