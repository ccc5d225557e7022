-- ===== src/Http/Exchange.antt =====
-- internal/transport/http/request_helper.go: requests, the principal behind them, and answers. Paths,
-- parameters and headers are ASCII texts; the headers with the measured times are not modelled.
use poc_dcs.Common.{
  String, Text, ℕ, Option, none, some, List, [], ◌∷◌, Error, string_eq, ◌==◌, ℤ, if◌then◌else◌,
}
use poc_dcs.Strings.{trim_space}
use poc_dcs.Types.{Principal, RequestContext}
use poc_dcs.Auth.Jwt.{JwtClaims}
use poc_dcs.Auth.Login.{LoginResponse}
use poc_dcs.Service.System.{System, AuditLog, PerfLog}
use poc_dcs.Service.Films.{FilmOutput}
use poc_dcs.Service.Halls.{HallOutput}
use poc_dcs.Service.Spectators.{SpectatorOutput}
use poc_dcs.Service.Logs.{PerfSummary}

-- A header or a parameter that is missing is the empty string.
pub record Request : Type 0 where
  pub method : String
  pub path : Text
  pub header : String → String
  pub query : String → String
  pub body : Text
  pub remote_addr : String

-- `detail` is what `writeError` sends, `plain` what `http.Error` sends, and `failure` the text of an
-- error.
pub data Body : Type 0 where
  empty : Body
  status : Body
  ready : Body
  detail : String → Body
  plain : String → Body
  failure : Error → Body
  film : FilmOutput → Body
  films : List FilmOutput → Body
  hall : HallOutput → Body
  halls : List HallOutput → Body
  spectator : SpectatorOutput → Body
  spectators : List SpectatorOutput → Body
  audits : List AuditLog → Body
  perfs : List PerfLog → Body
  summaries : List PerfSummary → Body
  settings : String → ℤ → Body
  logged_in : LoginResponse → Body

pub record Response : Type 0 where
  pub code : ℕ
  pub body : Body

-- A handler is given the claims that a middleware has put into the context of the request.
abbrev pub Handler : Type 0 → Type 0
Handler R = Option JwtClaims → Request → System R → Response × System R

abbrev pub respond : {R : Type 0} → ℕ → Body → System R → Response × System R
respond code body s = (record { code = code; body = body }, s)

unfoldable pub read_header_or_default : Request → String → String → String
unfolding trim_space
read_header_or_default r key fallback =
    if trim_space (r.header key) == "" then fallback else trim_space (r.header key)

unfoldable pub principal_from_request : Option JwtClaims → Request → Principal
unfolding read_header_or_default
principal_from_request (some claims) r = record {
  tenant_id = claims.tenant_id;
  user_id = claims.user_id;
  username = claims.username;
  role = claims.role;
  scopes = claims.scopes;
}
principal_from_request none r = record {
  tenant_id = read_header_or_default r "X-Tenant-ID" "t1";
  user_id = read_header_or_default r "X-User-ID" "u-dev";
  username = read_header_or_default r "X-Username" "dev";
  role = read_header_or_default r "X-Role" "developer";
  scopes = "cinema" ∷ [];
}

unfoldable pub request_context_from_request : Request → String → RequestContext
unfolding read_header_or_default
request_context_from_request r env = record {
  request_id = read_header_or_default r "X-Request-ID" "http-no-request-id";
  client_ip = read_header_or_default r "X-Real-IP" r.remote_addr;
  channel = "web";
  purpose = "cinema_ops";
  device_trust = 800;
  env = env;
}
