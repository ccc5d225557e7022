-- ===== src/Http/Server.antt =====
-- internal/transport/http/server.go: what a server is built from.
use poc_dcs.Common.{
  String, Text, ℕ, ℤ, Option, Error, not_found, invalid_credentials, Bool, true, false,
}
use poc_dcs.World.{World}
use poc_dcs.Auth.Jwt.{JwtLibrary, JwtService}
use poc_dcs.Auth.Login.{AuthService, LoginRequest}
use poc_dcs.Service.Films.{FilmService, FilmCreateInput}
use poc_dcs.Service.Halls.{HallService, HallCreateInput}
use poc_dcs.Service.Spectators.{SpectatorService, SpectatorCreateInput}
use poc_dcs.Service.Logs.{AuditService, PerfService}

-- A nil pointer is `none`.
pub record SettingsUpdate : Type 0 where
  pub dcs_mode : Option String
  pub cache_level : Option ℤ

-- Go's encoding/json on the bodies, a parameter; a body that does not fit is `none`.
pub record Decoders : Type 0 where
  pub film : Text → Option FilmCreateInput
  pub hall : Text → Option HallCreateInput
  pub spectator : Text → Option SpectatorCreateInput
  pub login : Text → Option LoginRequest
  pub settings : Text → Option SettingsUpdate

-- `clock` is the time at which a token is judged, in seconds.
pub record Server (R : Type 0) : Type 0 where
  pub env : String
  pub perf_source : String
  pub decoders : Decoders
  pub library : JwtLibrary
  pub jwt : JwtService
  pub clock : World → ℕ
  pub films : FilmService R
  pub halls : HallService R
  pub spectators : SpectatorService R
  pub auth : Option AuthService
  pub audit : Option (AuditService R)
  pub perf : Option (PerfService R)

-- errors.Is
abbrev pub is_not_found : Error → Bool
is_not_found not_found = true
is_not_found _ = false

abbrev pub is_invalid_credentials : Error → Bool
is_invalid_credentials invalid_credentials = true
is_invalid_credentials _ = false
