-- ===== src/Kms/Vault/Peppers.antt =====
-- The cache of the pepper has one entry for all paths.
use poc_dcs.Common.{
  String, Text, suc, pos, ◌≡◌, ◌≤◌, ◌+◌, refl, ap, ◌∙◌, some, none, Result, ok, err, true,
  string_eq, arith, bytes,
}
use poc_dcs.Action.{pure, continue, ◌>>=◌}
use poc_dcs.World.{World, level_enabled, pepper_get, pepper_set}
use poc_dcs.Cache.Ttl.History.{get-set_self, default_ttl-get}
use poc_dcs.Kms.Vault.{
  Client, Secret, pepper_of, remember_pepper, lift, get_pepper, pepper_uncached, kv_path,
}

module _ (v : Client) where
  pepper_get-after_set :
      (pepper : Text) (w : World)
      → v.oracle.clock (suc w.tick) ≤ v.oracle.clock w.tick + w.caches.pepper.default_ttl
      → (pepper_get v.oracle "pepper" (pepper_set v.oracle "pepper" pepper w)).0 ≡ some pepper
  unfolding pepper_get pepper_set
  pepper_get-after_set pepper w in_time =
      ap (λ r. r.0)
        (get-set_self "pepper" pepper (pos 0) (v.oracle.clock w.tick) (v.oracle.victim w.tick)
          (v.oracle.clock (suc w.tick)) w.caches.pepper)
      ∙ ground arith

  -- What Vault says under a path, before it is cached.
  abbrev pub asked : String → World → Result Text
  asked path w = elim (v.vault.read (kv_path (bytes path)) w.tick) [
    | err e ↦ err e
    | ok secret ↦ pepper_of secret
  ]

  remembered :
      (pepper : Text) (w : World)
      → level_enabled w 1 ≡ true
      → (remember_pepper v pepper w).1 ≡ pepper_set v.oracle "pepper" pepper w
  remembered pepper w enabled = rw enabled refl

  uncached_lem :
      (path : String) (w : World) (pepper : Text)
      → asked path w ≡ ok pepper
      → pepper_uncached v path w
        ≡ (ok pepper, (remember_pepper v pepper (record w { tick = suc w.tick })).1)
  unfolding pepper_uncached
  uncached_lem path w pepper h = go (v.vault.read (kv_path (bytes path)) w.tick) h
    where
      go :
          (r : Result Secret)
          → (elim r [ err e ↦ err e | ok secret ↦ pepper_of secret ]) ≡ ok pepper
          → continue r
              (λ secret. lift (pepper_of secret) >>= λ p. remember_pepper v p >>= λ _. pure p)
              (record w { tick = suc w.tick })
            ≡ (ok pepper, (remember_pepper v pepper (record w { tick = suc w.tick })).1)
      go (err e) h = cc
      go (ok secret) h = rw h refl

  get_pepper_of_hit :
      (path : String) (w : World) (pepper : Text)
      → level_enabled w 1 ≡ true
      → (pepper_get v.oracle "pepper" w).0 ≡ some pepper
      → (get_pepper v path w).0 ≡ ok pepper
  unfolding get_pepper
  get_pepper_of_hit path w pepper enabled hit = rw (enabled, hit)

  -- The world after a miss: Vault was asked, and the pepper was cached.
  abbrev after_miss : Text → World → World
  after_miss pepper w =
      let w' = (pepper_get v.oracle "pepper" w).1 in
      pepper_set v.oracle "pepper" pepper (record w' { tick = suc w'.tick })

  get_pepper_of_miss :
      (path : String) (w : World) (pepper : Text)
      → level_enabled w 1 ≡ true
      → (pepper_get v.oracle "pepper" w).0 ≡ none
      → asked path (pepper_get v.oracle "pepper" w).1 ≡ ok pepper
      → (get_pepper v path w).1 ≡ after_miss pepper w
  unfolding get_pepper pepper_get level_enabled
  get_pepper_of_miss path w pepper enabled missed answer =
      let w' = (pepper_get v.oracle "pepper" w).1 in
      rw (enabled, missed)
        (ap (λ r. r.1) (uncached_lem path w' pepper answer)
          ∙ remembered pepper (record w' { tick = suc w'.tick }) enabled)

  -- Where the pepper is cached, the first path decides: once the pepper of one path was read from
  -- Vault, another path gets the same pepper, as long as the entry lasts.
  get_pepper_confuses_paths :
      (first second : String) (pepper : Text) (w : World)
      → level_enabled w 1 ≡ true
      → (pepper_get v.oracle "pepper" w).0 ≡ none
      → asked first (pepper_get v.oracle "pepper" w).1 ≡ ok pepper
      → v.oracle.clock (suc (suc (suc w.tick)))
        ≤ v.oracle.clock (suc (suc w.tick)) + w.caches.pepper.default_ttl
      → (get_pepper v second (get_pepper v first w).1).0 ≡ ok pepper
  unfolding pepper_get level_enabled pepper_set
  get_pepper_confuses_paths first second pepper w enabled missed answer in_time =
      let w' = (pepper_get v.oracle "pepper" w).1 in
      ap (λ x. (get_pepper v second x).0) (get_pepper_of_miss first w pepper enabled missed answer)
      ∙ get_pepper_of_hit second (after_miss pepper w) pepper enabled (
          pepper_get-after_set pepper (record w' { tick = suc w'.tick })
            (ground (arith, default_ttl-get "pepper" (v.oracle.clock w.tick) w.caches.pepper)))
