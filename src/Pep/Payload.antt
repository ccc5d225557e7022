-- ===== src/Pep/Payload.antt =====
-- What the appliers of internal/dcs/pep share.
use poc_dcs.Common.{String, Text, ℤ, List, Map}
use poc_dcs.Action.{Act}

-- A value of an `interface{}` payload.
pub data Value : Type 0 where
  null : Value
  int : ℤ → Value
  text : Text → Value

-- The interface of the key management service, over its own state.
pub record Decryptor (S : Type 0) : Type 0 where
  pub decrypt : Text → Act S Text

pub record ApplyResult : Type 0 where
  pub payload : Map String Value
  pub decrypted : List String
  pub masked : List String
  pub denied : List String
