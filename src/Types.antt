-- ===== src/Types.antt =====
-- internal/dcs/types/types.go: the data that policy information, decision and enforcement share.
use poc_dcs.Common.{String, Text, ℕ, Bool, List, Map}

-- A Go string type whose constants are below; the empty string is the zero value.
abbrev pub Classification : Type 0
Classification = String

abbrev pub classification_public : Classification
classification_public = "PUBLIC"

abbrev pub classification_internal : Classification
classification_internal = "INTERNAL"

abbrev pub classification_sensitive : Classification
classification_sensitive = "SENSITIVE"

abbrev pub classification_pii : Classification
classification_pii = "PII"

-- `other s` is a string that is none of the four constants; `other ""` is the zero value.
pub data FieldAction : Type 0 where
  allow decrypt mask_after_decrypt deny : FieldAction
  other : String → FieldAction

pub record Principal : Type 0 where
  pub tenant_id : String
  pub user_id : String
  pub username : String
  pub role : String
  pub scopes : List String

-- The device trust, a float from 0 to 1 in the source, counts thousandths.
pub record RequestContext : Type 0 where
  pub request_id : String
  pub client_ip : String
  pub channel : String
  pub purpose : String
  pub device_trust : ℕ
  pub env : String

pub record FieldMeta : Type 0 where
  pub classification : Classification
  pub crypto : Map String String

pub record Resource : Type 0 where
  pub type : String
  pub id : Text
  pub owner_id : Text
  pub tenant_id : String
  pub labels : List String
  pub fields : Map String FieldMeta

pub record PolicyInput : Type 0 where
  pub principal : Principal
  pub action : String
  pub resource : Resource
  pub context : RequestContext

pub record Decision : Type 0 where
  pub allow : Bool
  pub field_actions : Map String FieldAction
  pub reason : String
  pub hash : String
