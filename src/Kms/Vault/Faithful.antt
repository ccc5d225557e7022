-- ===== src/Kms/Vault/Faithful.antt =====
-- The cache of plaintexts does not change what is decrypted.
use poc_dcs.Common.{
  Text, ℕ, suc, pos, ◌≡◌, refl, sym, ap, Option, some, none, Result, ok, err, Bool-cases, inl, inr,
  if◌then◌else◌, text_eq, length, ltb, other,
}
use poc_dcs.Action.{pure, continue, ◌>>=◌}
use poc_dcs.World.{World, level_enabled, kms_get, kms_set}
use poc_dcs.Cache.Ttl.Holding.{Holds, Holds-get, Holds-set, hit-Holds}
use poc_dcs.Kms.Vault.{
  Client, Secret, decoded, answered, ask_decrypt, remember, lift, log_prefix, decrypt,
  decrypt_uncached, decrypt_looked_up,
}

-- A text that is too short for the log line fails after all.
abbrev pub logged : Text → Result Text → Result Text
logged ct (err e) = err e
logged ct (ok p) =
    if ltb (length ct) 20 then err (other "panic: slice bounds out of range") else ok p

module _ (v : Client) (plain : Text → Result Text)
    (steady : (ct : Text) (now : ℕ) → answered v (ask_decrypt v ct now) ≡ plain ct) where
  -- Every cached plaintext is the one of its ciphertext.
  abbrev pub IsTrue : World → Type 0
  IsTrue w = Holds (λ ct p. plain ct ≡ ok p) w.caches.kms

  -- The answer is the plaintext's, and the cache stays true.
  abbrev IsRight : Text → Result Text × World → Type 0
  IsRight ct (r, w) = (r ≡ logged ct (plain ct)) × IsTrue w

  logged-IsRight :
      (ct p : Text) (w : World)
      → plain ct ≡ ok p
      → IsTrue w
      → IsRight ct ((lift (log_prefix ct) >>= λ _. pure p) w)
  logged-IsRight ct p w same h = elim (Bool-cases (ltb (length ct) 20)) [
    | inl short ↦ (rw (same, short) refl, rw short h)
    | inr long ↦ (rw (same, long) refl, rw long h)
  ]

  remember-IsTrue :
      (ct p : Text) (w : World) → plain ct ≡ ok p → IsTrue w → IsTrue (remember v ct p w).1
  unfolding kms_set
  remember-IsTrue ct p w same h = elim (Bool-cases (level_enabled w 3)) [
    | inl cached ↦ rw cached (
        Holds-set (λ ct p. plain ct ≡ ok p) ct p (pos 0) (v.oracle.clock w.tick)
          (v.oracle.victim w.tick) w.caches.kms same h)
    | inr direct ↦ rw direct h
  ]

  decoded-IsRight :
      (ct : Text) (d : Result Text) (w : World)
      → d ≡ plain ct
      → IsTrue w
      → IsRight ct
          (continue d (λ p. remember v ct p >>= λ _. lift (log_prefix ct) >>= λ _. pure p) w)
  decoded-IsRight ct (err e) w same h = (ap (logged ct) same, h)
  decoded-IsRight ct (ok p) w same h =
      logged-IsRight ct p (remember v ct p w).1 (sym same) (remember-IsTrue ct p w (sym same) h)

  decrypt_uncached-IsRight :
      (ct : Text) (w : World) → IsTrue w → IsRight ct (decrypt_uncached v ct w)
  unfolding decrypt_uncached
  decrypt_uncached-IsRight ct w h = go (ask_decrypt v ct w.tick) (steady ct w.tick)
    where
      go :
          (r : Result Secret)
          → answered v r ≡ plain ct
          → IsRight ct (
              continue r
                (λ secret. lift (decoded v secret) >>= λ p.
                  remember v ct p >>= λ _. lift (log_prefix ct) >>= λ _. pure p)
                (record w { tick = suc w.tick }))
      go (err e) same = (ap (logged ct) same, h)
      go (ok secret) same =
          decoded-IsRight ct (decoded v secret) (record w { tick = suc w.tick }) same h

  decrypt_looked_up-IsRight :
      (ct : Text) (hit : Option Text) (w : World)
      → ((p : Text) → hit ≡ some p → plain ct ≡ ok p)
      → IsTrue w
      → IsRight ct (decrypt_looked_up v ct hit w)
  unfolding decrypt_looked_up
  decrypt_looked_up-IsRight ct none w known h = decrypt_uncached-IsRight ct w h
  decrypt_looked_up-IsRight ct (some p) w known h = logged-IsRight ct p w (known p refl) h

  -- If Vault gives the same answer for a ciphertext at every moment, then so does the client,
  -- whatever the cache level and whatever true plaintexts are cached: it returns that answer, but
  -- panics where a plaintext was found for a ciphertext of less than 20 bytes. The cached plaintexts
  -- stay true.
  pub decrypt_refines_vault :
      (ct : Text) (w : World)
      → IsTrue w
      → ((decrypt v ct w).0 ≡ logged ct (plain ct)) × IsTrue (decrypt v ct w).1
  unfolding decrypt kms_get
  decrypt_refines_vault ct w h = elim (Bool-cases (level_enabled w 3)) [
    | inl cached ↦ rw cached (
        decrypt_looked_up-IsRight ct (kms_get v.oracle ct w).0 (kms_get v.oracle ct w).1
          (λ p hit.
            hit-Holds (λ ct p. plain ct ≡ ok p) ct (v.oracle.clock w.tick) w.caches.kms p h hit)
          (Holds-get (λ ct p. plain ct ≡ ok p) ct (v.oracle.clock w.tick) w.caches.kms h))
    | inr direct ↦ rw direct (decrypt_uncached-IsRight ct w h)
  ]
