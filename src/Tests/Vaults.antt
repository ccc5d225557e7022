-- ===== src/Tests/Vaults.antt =====
-- The client of Vault against a Vault that answers with what it was given.
use poc_dcs.Common.{
  String, Text, bytes, pos, ◌≡◌, refl, Option, none, some, [], ◌∷◌, Map, Result, ok, string_eq,
  text_eq, lookup,
}
use poc_dcs.Runtime
use poc_dcs.Cache.Ttl
use poc_dcs.Cache.Ttl.Holding.{Holds}
use poc_dcs.World.{World, new_manager}
use poc_dcs.Kms.Vault.{Client, Datum, Vault, string, object, leaf, answered, ask_decrypt, decrypt}
use poc_dcs.Kms.Vault.Faithful.{logged, IsTrue, decrypt_refines_vault}
use poc_dcs.Tests.Fixtures.{oracle, base64, start}

abbrev given : Option Text → Option (Map String Datum)
given none = none
given (some ct) = some (("plaintext", string ct) ∷ [])

abbrev vault : Vault
vault = record {
  write = λ path fields now. ok (given (lookup "ciphertext" fields));
  read = λ path now. ok (some (("data", object (("pepper", leaf path) ∷ [])) ∷ []));
}

abbrev client : Client
client = record { vault = vault; base64 = base64; oracle = oracle; transit_key = bytes "key" }

-- What Vault answers at any moment.
abbrev plain : Text → Result Text
plain ct = answered client (ask_decrypt client ct 0)

abbrev caching : World
caching = record start { settings = Runtime.new "on" (pos 3) }

nothing_cached : Holds (λ ct p. plain ct ≡ ok p) caching.caches.kms
unfolding lookup new_manager Ttl.new
nothing_cached k item found = cc

decrypt_refines_vault_example :
    ((decrypt client (bytes "vault:v1:0123456789abcdef") caching).0
      ≡ logged (bytes "vault:v1:0123456789abcdef") (plain (bytes "vault:v1:0123456789abcdef")))
    × IsTrue client plain
        (λ ct now. refl)
        (decrypt client (bytes "vault:v1:0123456789abcdef") caching).1
decrypt_refines_vault_example =
    decrypt_refines_vault client plain (λ ct now. refl) (bytes "vault:v1:0123456789abcdef") caching
      nothing_cached
