-- ===== src/Http/Security/Changing.antt =====
-- What a request for other settings does.
use poc_dcs.Common.{String, Text, ◌≡◌, ◌⊎◌, Option, none, some, string_eq, text_eq}
use poc_dcs.Runtime
use poc_dcs.Cache.Ttl
use poc_dcs.World.{Oracle, World, classification_get, pdp_get, kms_get, pepper_get}
use poc_dcs.Service.System.{System}
use poc_dcs.Http.Exchange.{Response}
use poc_dcs.Http.Server.{Server, SettingsUpdate}

-- No cache has an answer.
pub record IsForgetful (w : World) : Type 0 where
  pub classifications : (o : Oracle) (k : String) → (classification_get o k w).0 ≡ none
  pub decisions : (o : Oracle) (k : String) → (pdp_get o k w).0 ≡ none
  pub plaintexts : (o : Oracle) (k : Text) → (kms_get o k w).0 ≡ none
  pub peppers : (o : Oracle) (k : String) → (pepper_get o k w).0 ≡ none

module _ {R : Type 0} (server : Server R) where
  -- What a `PATCH` of the settings with such a body leaves.
  pub record IsChanged (update : SettingsUpdate) (s s' : System R) : Type 0 where
    pub stored : s'.world.settings ≡ Runtime.set s.world.settings update.dcs_mode update.cache_level
    pub forgetful : IsForgetful s'.world
    pub kept : s'.store ≡ s.store

  abbrev pub IsPatched : Option SettingsUpdate → Response × System R → System R → Type 0
  IsPatched body answer s =
      ((answer.0.code ≡ 400) × (answer.1 ≡ s))
      ⊎ ((update : SettingsUpdate) × (body ≡ some update)
          × (answer.0.code ≡ 200)
          × IsChanged update s answer.1)
