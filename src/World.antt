-- ===== src/World.antt =====
-- The state that the requests share: the settings of internal/dcs/runtime and the caches of
-- internal/dcs/cache/manager.go. What the environment decides is an oracle: the n-th reading of the
-- clock, and the entry that Go's random iteration of a full cache meets first.
use poc_dcs.Common.{String, Text, ℕ, suc, Bool, Option, ℤ, pos, Map, string_eq, text_eq, not, ltb_ℤ}
use poc_dcs.Types.{Classification, Decision}
use poc_dcs.Runtime.{Settings}
use poc_dcs.Cache.Ttl
use poc_dcs.Cache.Ttl.{Ttl}

pub record Oracle : Type 0 where
  pub clock : ℕ → ℕ
  pub victim : ℕ → ℕ

abbrev pub ClassificationMap : Type 0
ClassificationMap = Map String Classification

pub record Manager : Type 0 where
  pub classification : Ttl String ClassificationMap
  pub pdp : Ttl String Decision
  pub kms : Ttl Text Text
  pub pepper : Ttl String Text

pub record Options : Type 0 where
  pub max_entries : ℤ
  pub classification_ttl : ℤ
  pub pdp_ttl : ℤ
  pub kms_ttl : ℤ
  pub pepper_ttl : ℤ

unfoldable pub new_manager : Options → Manager
new_manager opts = record {
  classification = Ttl.new opts.max_entries opts.classification_ttl;
  pdp = Ttl.new opts.max_entries opts.pdp_ttl;
  kms = Ttl.new opts.max_entries opts.kms_ttl;
  pepper = Ttl.new (pos 8) opts.pepper_ttl;
}

unfoldable pub clear_all : Manager → Manager
clear_all m = record {
  classification = Ttl.clear m.classification;
  pdp = Ttl.clear m.pdp;
  kms = Ttl.clear m.kms;
  pepper = Ttl.clear m.pepper;
}

-- `tick` counts the readings of the clock.
pub record World : Type 0 where
  pub settings : Settings
  pub caches : Manager
  pub tick : ℕ

unfoldable pub level_enabled : World → ℕ → Bool
level_enabled w level = not (ltb_ℤ w.settings.cache_level (pos level))

module _ (o : Oracle) where
  unfoldable pub classification_get : String → World → Option ClassificationMap × World
  classification_get k w =
      let (hit, t) = Ttl.get k (o.clock w.tick) w.caches.classification in
      (hit, record w { caches = record w.caches { classification = t }; tick = suc w.tick })

  unfoldable pub classification_set : String → ClassificationMap → World → World
  classification_set k v w =
      let t = Ttl.set k v (pos 0) (o.clock w.tick) (o.victim w.tick) w.caches.classification in
      record w { caches = record w.caches { classification = t }; tick = suc w.tick }

  unfoldable pub pdp_get : String → World → Option Decision × World
  pdp_get k w =
      let (hit, t) = Ttl.get k (o.clock w.tick) w.caches.pdp in
      (hit, record w { caches = record w.caches { pdp = t }; tick = suc w.tick })

  unfoldable pub pdp_set : String → Decision → World → World
  pdp_set k v w =
      let t = Ttl.set k v (pos 0) (o.clock w.tick) (o.victim w.tick) w.caches.pdp in
      record w { caches = record w.caches { pdp = t }; tick = suc w.tick }

  unfoldable pub kms_get : Text → World → Option Text × World
  kms_get k w =
      let (hit, t) = Ttl.get k (o.clock w.tick) w.caches.kms in
      (hit, record w { caches = record w.caches { kms = t }; tick = suc w.tick })

  unfoldable pub kms_set : Text → Text → World → World
  kms_set k v w =
      let t = Ttl.set k v (pos 0) (o.clock w.tick) (o.victim w.tick) w.caches.kms in
      record w { caches = record w.caches { kms = t }; tick = suc w.tick }

  unfoldable pub pepper_get : String → World → Option Text × World
  pepper_get k w =
      let (hit, t) = Ttl.get k (o.clock w.tick) w.caches.pepper in
      (hit, record w { caches = record w.caches { pepper = t }; tick = suc w.tick })

  unfoldable pub pepper_set : String → Text → World → World
  pepper_set k v w =
      let t = Ttl.set k v (pos 0) (o.clock w.tick) (o.victim w.tick) w.caches.pepper in
      record w { caches = record w.caches { pepper = t }; tick = suc w.tick }
