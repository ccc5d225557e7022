-- ===== src/Enforcer/Data.antt =====
-- What the enforcer takes and returns: internal/service/policy_enforcer.go, hall_types.go and
-- spectator_types.go.
use poc_dcs.Common.{String, Text, ℤ, Bool, Option, List}
use poc_dcs.Pep.Payload.{Value}

pub record AuthorizationDecision : Type 0 where
  pub allow : Bool
  pub reason : String
  pub decision_hash : String

pub record FilmReadInput : Type 0 where
  pub film_id : Text
  pub title : Text
  pub time_elapsed_ct : Text

pub record FilmReadResult : Type 0 where
  pub time_elapsed : Value
  pub fields_decrypted : List String
  pub fields_masked : List String
  pub fields_denied : List String

pub record FilmCreatePlain : Type 0 where
  pub title : Text
  pub time_elapsed : ℤ

pub record FilmCreateEncrypted : Type 0 where
  pub title : Text
  pub time_elapsed_ct : Text

pub record HallReadInput : Type 0 where
  pub hall_id : Text
  pub name : Text
  pub owner_user_id : Text
  pub current_film_id : Text

pub record HallReadResult : Type 0 where
  pub name : Option Text
  pub owner_user_id : Text
  pub current_film_id : Text
  pub fields_masked : List String
  pub fields_denied : List String

pub record SpectatorReadInput : Type 0 where
  pub spectator_id : Text
  pub hall_id : Text
  pub name_ct : Text
  pub age_ct : Text
  pub external_id_ct : Text

pub record SpectatorReadResult : Type 0 where
  pub name : Value
  pub age : Value
  pub external_id : Value
  pub fields_decrypted : List String
  pub fields_masked : List String
  pub fields_denied : List String

pub record SpectatorCreatePlain : Type 0 where
  pub hall_id : Text
  pub name : Text
  pub age : ℤ
  pub external_id : Text

pub record SpectatorCreateEncrypted : Type 0 where
  pub hall_id : Text
  pub name_ct : Text
  pub age_ct : Text
  pub external_id_ct : Text
  pub external_id_lookup : Text
