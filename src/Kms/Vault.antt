-- ===== src/Kms/Vault.antt =====
-- internal/dcs/kms/vault_transit.go: the client of Vault's transit engine and key-value store. Vault
-- itself, behind `client.Logical()`, is a parameter: what it answers may depend on the moment. A log
-- line that slices `ciphertext[:20]` panics on a shorter text; the panic ends the call as an error.
pub mod Paths
pub mod Faithful
pub mod Peppers
use poc_dcs.Common.{
  String, Text, bytes, ℕ, suc, Bool, List, [], ◌∷◌, ◌++◌, Map, lookup, string_eq, eqb, length, ltb,
  Option, none, some, Result, ok, err, Error, other, if◌then◌else◌,
}
use poc_dcs.Action.{Act, pure, raise, ◌>>=◌}
use poc_dcs.World.{Oracle, World, level_enabled, kms_get, kms_set, pepper_get, pepper_set}
use poc_dcs.Kms.{CryptoService, Base64, strip_prefix, normalize_external_id}

-- A value of the map `secret.Data`, as far as it is looked at: an object's values are texts or not.
pub data Leaf : Type 0 where
  leaf : Text → Leaf
  no_text : Leaf

pub data Datum : Type 0 where
  string : Text → Datum
  object : Map String Leaf → Datum
  anything : Datum

-- `nil` for the secret or its data is `none`.
abbrev pub Secret : Type 0
Secret = Option (Map String Datum)

pub record Vault : Type 0 where
  pub write : Text → Map String Text → ℕ → Result Secret
  pub read : Text → ℕ → Result Secret

pub record Client : Type 0 where
  pub vault : Vault
  pub base64 : Base64
  pub oracle : Oracle
  pub transit_key : Text

-- One exchange with Vault, at the moment of the world.
abbrev pub exchange : (ℕ → Result Secret) → Act World Secret
exchange ask w = (ask w.tick, record w { tick = suc w.tick })

-- `v, ok := data[key].(string)`
abbrev pub as_string : Option Datum → Option Text
as_string (some (string s)) = some s
as_string _ = none

abbrev pub as_object : Option Datum → Option (Map String Leaf)
as_object (some (object m)) = some m
as_object _ = none

abbrev pub leaf_text : Option Leaf → Option Text
leaf_text (some (leaf s)) = some s
leaf_text _ = none

abbrev pub or_other : {A : Type 0} → String → Option A → Result A
or_other message none = err (other message)
or_other message (some a) = ok a

-- The text of a key of the answer's data.
abbrev pub text_of : (missing nil : String) → String → Secret → Result Text
text_of missing nil key none = err (other nil)
text_of missing nil key (some fields) = or_other missing (as_string (lookup key fields))

abbrev pub lift : {A : Type 0} → Result A → Act World A
lift r w = (r, w)

-- `slog.String("ciphertext_prefix", ciphertext[:20])`
abbrev pub log_prefix : Text → Result (Unit {0})
log_prefix ciphertext =
    if ltb (length ciphertext) 20 then err (other "panic: slice bounds out of range") else ok tt

-- `strings.Trim(path, "/")`
unfoldable pub trim_slashes_left : Text → Text
trim_slashes_left [] = []
trim_slashes_left (b ∷ s) = if eqb b b'/' then trim_slashes_left s else b ∷ s

abbrev pub keep_slash : ℕ → Text → Text
keep_slash b [] = if eqb b b'/' then [] else b ∷ []
keep_slash b (c ∷ s) = b ∷ c ∷ s

unfoldable pub trim_slashes_right : Text → Text
trim_slashes_right [] = []
trim_slashes_right (b ∷ s) = keep_slash b (trim_slashes_right s)

abbrev pub trim_slashes : Text → Text
trim_slashes path = trim_slashes_right (trim_slashes_left path)

-- The switch on the prefixes of the cleaned path.
abbrev pub under_mount : Text → (under_data under_secret : Option Text) → Text
under_mount clean (some rest) under_secret = clean
under_mount clean none (some rest) = bytes "secret/data/" ++ rest
under_mount clean none none = bytes "secret/data/" ++ clean

unfoldable pub kv_path : Text → Text
unfolding trim_slashes_left trim_slashes_right
kv_path path =
    let clean = trim_slashes path in
    under_mount clean (strip_prefix (bytes "secret/data/") clean)
      (strip_prefix (bytes "secret/") clean)

-- The pepper of an answer, under `data` under `data`.
abbrev pub pepper_in : Option (Map String Leaf) → Result Text
pepper_in none = err (other "unexpected pepper secret format")
pepper_in (some fields) =
    or_other "pepper field not found in secret" (leaf_text (lookup "pepper" fields))

abbrev pub pepper_of : Secret → Result Text
pepper_of none = err (other "pepper secret not found")
pepper_of (some fields) = pepper_in (as_object (lookup "data" fields))

module _ (v : Client) where
  unfoldable pub encrypt : Text → Act World Text
  encrypt plaintext = do
    secret ← exchange (
        v.vault.write (bytes "transit/encrypt/" ++ v.transit_key)
          (("plaintext", v.base64.encode plaintext) ∷ []))
    lift (
        text_of "vault encrypt response missing ciphertext" "vault encrypt returned nil data"
          "ciphertext" secret)

  -- What the answer to a decryption means.
  abbrev pub decoded : Secret → Result Text
  decoded secret =
      elim (text_of "vault decrypt response missing plaintext" "vault decrypt returned nil data"
        "plaintext" secret) [
          | err e ↦ err e
          | ok encoded ↦ or_other "failed to decode plaintext" (v.base64.decode encoded)
        ]

  -- What an exchange means.
  abbrev pub answered : Result Secret → Result Text
  answered (err e) = err e
  answered (ok secret) = decoded secret

  abbrev pub ask_decrypt : Text → ℕ → Result Secret
  ask_decrypt ciphertext =
      v.vault.write (bytes "transit/decrypt/" ++ v.transit_key) (("ciphertext", ciphertext) ∷ [])

  -- `if v.cache.LevelEnabled(3) { v.cache.KMS.Set(ciphertext, plaintext, 0) }`
  abbrev pub remember : Text → Text → Act World (Unit {0})
  remember ciphertext plaintext w =
      (ok tt, if level_enabled w 3 then kms_set v.oracle ciphertext plaintext w else w)

  unfoldable pub decrypt_uncached : Text → Act World Text
  decrypt_uncached ciphertext = do
    secret ← exchange (ask_decrypt ciphertext)
    plaintext ← lift (decoded secret)
    cached ← remember ciphertext plaintext
    logged ← lift (log_prefix ciphertext)
    pure plaintext

  unfoldable pub decrypt_looked_up : Text → Option Text → Act World Text
  unfolding decrypt_uncached
  decrypt_looked_up ciphertext none = decrypt_uncached ciphertext
  decrypt_looked_up ciphertext (some cached) = do logged ← lift (log_prefix ciphertext); pure cached

  unfoldable pub decrypt : Text → Act World Text
  unfolding decrypt_looked_up decrypt_uncached
  decrypt ciphertext w =
      if level_enabled w 3
      then (let (hit, w') = kms_get v.oracle ciphertext w in decrypt_looked_up ciphertext hit w')
      else decrypt_uncached ciphertext w

  abbrev pub remember_pepper : Text → Act World (Unit {0})
  remember_pepper pepper w =
      (ok tt, if level_enabled w 1 then pepper_set v.oracle "pepper" pepper w else w)

  unfoldable pub pepper_uncached : String → Act World Text
  unfolding kv_path
  pepper_uncached path = do
    secret ← exchange (v.vault.read (kv_path (bytes path)))
    pepper ← lift (pepper_of secret)
    cached ← remember_pepper pepper
    pure pepper

  unfoldable pub pepper_looked_up : String → Option Text → Act World Text
  unfolding pepper_uncached
  pepper_looked_up path none = pepper_uncached path
  pepper_looked_up path (some cached) = pure cached

  -- The cache has one entry, whatever the path.
  unfoldable pub get_pepper : String → Act World Text
  unfolding pepper_looked_up pepper_uncached
  get_pepper path w =
      if level_enabled w 1
      then (let (hit, w') = pepper_get v.oracle "pepper" w in pepper_looked_up path hit w')
      else pepper_uncached path w

  abbrev pub vault_client : CryptoService
  vault_client = record { encrypt = encrypt; decrypt = decrypt; get_pepper = get_pepper }

  -- `hmac` is HMAC-SHA256.
  unfoldable pub compute_lookup : (hmac : Text → Text → Text) → Text → String → Act World Text
  unfolding get_pepper normalize_external_id
  compute_lookup hmac external_id pepper_path = do
    pepper ← get_pepper pepper_path
    pure (hmac pepper (normalize_external_id external_id))
