-- ===== src/Bootstrap/Start.antt =====
-- What holds when a process starts, and after every decision and change of the settings.
use poc_dcs.Common.{String, ℤ, ◌≡◌, sym, Option, lookup, string_eq, subst}
use poc_dcs.Environment.{Config}
use poc_dcs.Runtime
use poc_dcs.Cache.Ttl
use poc_dcs.World.{World, clear_all, new_manager}
use poc_dcs.Pip
use poc_dcs.Enforcer.{Parts, decide_on}
use poc_dcs.Enforcer.Authorize.{IsSound, decide_on-IsSound}
use poc_dcs.Bootstrap.{Outside, setup_dcs, setup_world}

-- What reaches the shared state without the key management: a decision, or a change of the settings
-- by an administrator, which empties the caches.
pub data Step (e : Parts) : World → World → Type 0 where
  decides : {w w' : World} (input : Pip.Input) → w' ≡ (decide_on e input w).1 → Step e w w'
  changes :
      {w w' : World} (mode : Option String) (level : Option ℤ)
      → w' ≡ record w { settings = Runtime.set w.settings mode level; caches = clear_all w.caches }
      → Step e w w'

pub data Reaches (e : Parts) (w : World) : World → Type 0 where
  here : Reaches e w w
  then : {v v' : World} → Reaches e w v → Step e v v' → Reaches e w v'

module _ (o : Outside) (cfg : Config) where
  setup_world-IsSound : IsSound (setup_dcs o cfg) (setup_world o cfg)
  unfolding setup_world Ttl.new new_manager lookup
  setup_world-IsSound = record { computed = λ key item found. cc }

module _ (e : Parts) where
  cleared-IsSound :
      (w : World) (mode : Option String) (level : Option ℤ)
      → IsSound e
          (record w { settings = Runtime.set w.settings mode level; caches = clear_all w.caches })
  unfolding clear_all Ttl.clear lookup
  cleared-IsSound w mode level = record { computed = λ key item found. cc }

  Step-IsSound : {w w' : World} → Step e w w' → IsSound e w → IsSound e w'
  Step-IsSound {w} (decides input made) h =
      subst (IsSound e) (sym made) (decide_on-IsSound e input w h)
  Step-IsSound {w} (changes mode level made) h =
      subst (IsSound e) (sym made) (cleared-IsSound w mode level)

  Reaches-IsSound : {w w' : World} → IsSound e w → Reaches e w w' → IsSound e w'
  Reaches-IsSound h here = h
  Reaches-IsSound h (then reached step) = Step-IsSound step (Reaches-IsSound h reached)

-- In every state that a new process reaches by decisions and by changes of the settings, each cached
-- decision is the one that the rules of its configuration give to a request of the cached key.
pub started-IsSound :
    (o : Outside) (cfg : Config) (w : World)
    → Reaches (setup_dcs o cfg) (setup_world o cfg) w
    → IsSound (setup_dcs o cfg) w
started-IsSound o cfg w reached =
    Reaches-IsSound (setup_dcs o cfg) (setup_world-IsSound o cfg) reached
