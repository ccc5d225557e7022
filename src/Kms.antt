-- ===== src/Kms.antt =====
-- internal/dcs/kms: the key management interface, the local client and the lookup digest. The
-- interface CryptoService of internal/dcs/enforcer is a record: Vault is one implementation.
pub mod Lookup
pub mod Vault
use poc_dcs.Common.{
  String, Text, bytes, Bool, true, false, ◌&&◌, ◌||◌, ◌-◌, ℕ, List, [], ◌∷◌, ◌++◌, leb, eqb, map,
  Result, ok, err, Option, none, some, other, if◌then◌else◌,
}
use poc_dcs.Action.{Act}
use poc_dcs.World.{World}
use poc_dcs.Pep.Payload.{Decryptor}

pub record CryptoService : Type 0 where
  pub encrypt : Text → Act World Text
  pub decrypt : Text → Act World Text
  pub get_pepper : String → Act World Text

abbrev pub decryptor : CryptoService → Decryptor World
decryptor kms = record { decrypt = kms.decrypt }

-- The ASCII blanks and letters of `strings.TrimSpace` and `strings.ToUpper`; the blanks and letters
-- of other alphabets are not modelled.
abbrev pub is_blank : ℕ → Bool
is_blank b = (leb 9 b && leb b 13) || eqb b 32

abbrev pub upper_byte : ℕ → ℕ
upper_byte b = if leb b'a' b && leb b b'z' then b - 32 else b

unfoldable pub trim_left : Text → Text
trim_left [] = []
trim_left (b ∷ s) = if is_blank b then trim_left s else b ∷ s

abbrev pub keep : ℕ → Text → Text
keep b [] = if is_blank b then [] else b ∷ []
keep b (c ∷ s) = b ∷ c ∷ s

unfoldable pub trim_right : Text → Text
trim_right [] = []
trim_right (b ∷ s) = keep b (trim_right s)

unfoldable pub normalize_external_id : Text → Text
unfolding trim_left trim_right
normalize_external_id external_id = map upper_byte (trim_right (trim_left external_id))

abbrev pub strip_prefix : Text → Text → Option Text
strip_prefix [] s = some s
strip_prefix (p ∷ ps) [] = none
strip_prefix (p ∷ ps) (b ∷ s) = if eqb p b then strip_prefix ps s else none

-- Go's encoding/base64, a parameter of the clients.
pub record Base64 : Type 0 where
  pub encode : Text → Text
  pub decode : Text → Option Text

abbrev pub vault_prefix : Text
vault_prefix = bytes "vault:v1:"

abbrev pub decoded_answer : Option Text → Result Text
decoded_answer none = err (other "decode ciphertext")
decoded_answer (some decoded) = ok decoded

module _ (base64 : Base64) where
  unfoldable pub local_encrypt : Text → Text
  local_encrypt plaintext = vault_prefix ++ base64.encode plaintext

  -- After the prefix is cut: a text without the prefix is returned as it stands.
  abbrev pub payload_answer : Text → Option Text → Result Text
  payload_answer raw none = ok raw
  payload_answer raw (some payload) = decoded_answer (base64.decode payload)

  unfoldable pub local_decrypt : Text → Result Text
  unfolding trim_left trim_right
  local_decrypt ciphertext =
      let raw = trim_right (trim_left ciphertext) in
      payload_answer raw (strip_prefix vault_prefix raw)

  unfoldable pub local_client : CryptoService
  unfolding local_encrypt local_decrypt
  local_client = record {
    encrypt = λ plaintext w. (ok (local_encrypt plaintext), w);
    decrypt = λ ciphertext w. (local_decrypt ciphertext, w);
    get_pepper = λ path w. (ok (bytes "local-dev-pepper-not-secure"), w);
  }
