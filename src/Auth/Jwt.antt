-- ===== src/Auth/Jwt.antt =====
-- internal/auth/jwt.go. The library golang-jwt, which signs, parses and checks the expiry, is a
-- parameter; times are in seconds.
pub mod Valid
use poc_dcs.Common.{
  String, Text, ℕ, ◌+◌, ◌*◌, Bool, true, false, not, Option, none, some, List, [], ◌∷◌, Result, ok,
  err, other, elem, string_eq, ◌==◌, ◌>>=◌, if◌then◌else◌,
}
use poc_dcs.Types.{Principal}

-- JWTClaims, with the registered claims that the service sets or reads.
pub record JwtClaims : Type 0 where
  pub user_id : String
  pub tenant_id : String
  pub username : String
  pub role : String
  pub scopes : List String
  pub issuer : String
  pub audience : List String
  pub subject : String
  pub issued_at : ℕ
  pub expires_at : ℕ

-- The claims that a token carries: of the two fields that encoding/json would name `sub`, the outer
-- UserID hides the Subject of the registered claims, which is neither written nor read.
abbrev pub carried : JwtClaims → JwtClaims
carried claims = record claims { subject = "" }

-- The dynamic type of `token.Method`.
pub data SigningMethod : Type 0 where
  hmac : SigningMethod
  another : String → SigningMethod

-- A parsed token: its claims, if they are of the type asked for, and `token.Valid`.
pub record Token : Type 0 where
  pub claims : Option JwtClaims
  pub valid : Bool

-- `jwt.Keyfunc`: the key for the method that the token names.
abbrev pub Keyfunc : Type 0
Keyfunc = SigningMethod → Result String

-- `parse_with_claims` takes the time, since the library rejects a token that has expired.
pub record JwtLibrary : Type 0 where
  pub sign_hs256 : String → JwtClaims → Result Text
  pub parse_with_claims : ℕ → Keyfunc → Text → Result Token

pub record JwtService : Type 0 where
  pub secret : String
  pub issuer : String
  pub audience : String
  pub ttl : ℕ

abbrev pub new_jwt_service : (secret issuer audience : String) → (ttl_minutes : ℕ) → JwtService
new_jwt_service secret issuer audience ttl_minutes = record {
  secret = secret;
  issuer = issuer;
  audience = audience;
  ttl = ttl_minutes * 60;
}

-- The loop over the audiences of the claims.
abbrev pub is_audience : String → List String → Bool
is_audience ours [] = false
is_audience ours (aud ∷ audience) = if aud == ours then true else is_audience ours audience

module _ (library : JwtLibrary) (j : JwtService) where
  abbrev pub claims_for : Principal → ℕ → JwtClaims
  claims_for principal now = record {
    user_id = principal.user_id;
    tenant_id = principal.tenant_id;
    username = principal.username;
    role = principal.role;
    scopes = principal.scopes;
    issuer = j.issuer;
    audience = j.audience ∷ [];
    subject = principal.user_id;
    issued_at = now;
    expires_at = now + j.ttl;
  }

  abbrev pub signed_answer : Result Text → Result Text
  signed_answer (ok signed) = ok signed
  signed_answer (err e) = err (other "failed to sign token")

  unfoldable pub generate_token : Principal → ℕ → Result Text
  generate_token principal now =
      signed_answer (library.sign_hs256 j.secret (claims_for principal now))

  abbrev pub key_for : Keyfunc
  key_for hmac = ok j.secret
  key_for (another alg) = err (other "unexpected signing method")

  abbrev pub checked_claims : JwtClaims → Result JwtClaims
  checked_claims claims =
      if not (is_audience j.audience claims.audience)
      then err (other "invalid audience")
      else if not (claims.issuer == j.issuer)
      then err (other "invalid issuer")
      else ok claims

  abbrev pub claims_answer : Option JwtClaims → Bool → Result JwtClaims
  claims_answer none valid = err (other "invalid token claims")
  claims_answer (some claims) valid =
      if not valid then err (other "invalid token claims") else checked_claims claims

  abbrev pub parsed_answer : Result Token → Result JwtClaims
  parsed_answer (err e) = err (other "failed to parse token")
  parsed_answer (ok token) = claims_answer token.claims token.valid

  unfoldable pub validate_token : ℕ → Text → Result JwtClaims
  validate_token now token = parsed_answer (library.parse_with_claims now key_for token)

  abbrev pub claims_to_principal : JwtClaims → Principal
  claims_to_principal claims = record {
    tenant_id = claims.tenant_id;
    user_id = claims.user_id;
    username = claims.username;
    role = claims.role;
    scopes = claims.scopes;
  }
