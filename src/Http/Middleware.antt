-- ===== src/Http/Middleware.antt =====
-- internal/transport/http/middleware.go.
pub mod Gates
use poc_dcs.Common.{
  String, Text, bytes, ℕ, ◌+◌, Bool, not, ◌&&◌, Option, none, some, List, [], ◌∷◌, map, leb, eqb,
  Result, ok, err, string_eq, text_eq, ◌==◌, if◌then◌else◌,
}
use poc_dcs.Auth.Jwt.{JwtClaims, validate_token}
use poc_dcs.Service.System.{System}
use poc_dcs.Http.Exchange.{Request, Response, Handler, detail, respond}
use poc_dcs.Http.Server.{Server}

-- `strings.SplitN(s, " ", 2)`, where there is a space.
abbrev pub extend : ℕ → Option (Text × Text) → Option (Text × Text)
extend b none = none
extend b (some (first, rest)) = some (b ∷ first, rest)

unfoldable pub split_at_space : Text → Option (Text × Text)
split_at_space [] = none
split_at_space (b ∷ s) =
    let rest = split_at_space s in if eqb b b' ' then some ([], s) else extend b rest

abbrev pub lower_byte : ℕ → ℕ
lower_byte b = if leb b'A' b && leb b b'Z' then b + 32 else b

abbrev pub bearer_of : Option (Text × Text) → Option Text
bearer_of none = none
bearer_of (some (scheme, token)) =
    if map lower_byte scheme == bytes "bearer" then some token else none

-- The token of `Bearer <token>`.
unfoldable pub bearer_token : Text → Option Text
unfolding split_at_space
bearer_token header = bearer_of (split_at_space header)

module _ {R : Type 0} (server : Server R) where
  abbrev pub with_claims : Handler R → Result JwtClaims → Request → System R → Response × System R
  with_claims next (err e) r s = respond 401 (detail "invalid or expired token") s
  with_claims next (ok claims) r s = next (some claims) r s

  abbrev pub validated : System R → Text → Result JwtClaims
  validated s token = validate_token server.library server.jwt (server.clock s.world) token

  abbrev pub with_token : Handler R → Option Text → Request → System R → Response × System R
  with_token next none r s = respond 401 (detail "invalid authorization header format") s
  with_token next (some token) r s = with_claims next (validated s token) r s

  unfoldable pub jwt_middleware : Handler R → Handler R
  unfolding bearer_token
  jwt_middleware next claims r s =
      if r.header "Authorization" == ""
      then respond 401 (detail "missing authorization header") s
      else with_token next (bearer_token (bytes (r.header "Authorization"))) r s

  abbrev pub admin_only : Handler R → Handler R
  admin_only next none r s = respond 401 (detail "missing authentication") s
  admin_only next (some claims) r s =
      if not (claims.role == "admin")
      then respond 403 (detail "admin role required") s
      else next (some claims) r s

  unfoldable pub admin_middleware : Handler R → Handler R
  unfolding jwt_middleware
  admin_middleware next = jwt_middleware (admin_only next)

  -- Without a bearer token the handler goes on without claims.
  abbrev pub with_optional_token :
      Handler R → Option Text → Request → System R → Response × System R
  with_optional_token next none r s = next none r s
  with_optional_token next (some token) r s = with_claims next (validated s token) r s

  unfoldable pub optional_jwt_middleware : Handler R → Handler R
  unfolding bearer_token
  optional_jwt_middleware next claims r s =
      if r.header "Authorization" == ""
      then next none r s
      else with_optional_token next (bearer_token (bytes (r.header "Authorization"))) r s
