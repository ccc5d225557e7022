-- ===== src/Auth/Login.antt =====
-- internal/service/auth_service.go, with User of internal/domain/user.go. The comparison of bcrypt
-- and the store of users are parameters; a login changes neither.
pub mod Credentials
use poc_dcs.Common.{
  String, Text, ℕ, ◌*◌, Bool, not, List, [], ◌∷◌, Result, ok, err, Error, other, not_found,
  invalid_credentials, string_eq, ◌==◌, if◌then◌else◌, ◌||◌,
}
use poc_dcs.Types.{Principal}
use poc_dcs.Auth.Jwt.{JwtLibrary, JwtService, generate_token}

pub record User : Type 0 where
  pub id : String
  pub tenant_id : String
  pub username : String
  pub password_hash : Text
  pub role : String

pub record LoginRequest : Type 0 where
  pub username : String
  pub password : Text
  pub tenant_id : String

pub record LoginResponse : Type 0 where
  pub access_token : Text
  pub token_type : String
  pub expires_in : ℕ
  pub user_id : String
  pub tenant_id : String
  pub username : String
  pub role : String

-- `compare` is `bcrypt.CompareHashAndPassword`, of the hash and the password.
pub record AuthService : Type 0 where
  pub get_by_username : String → String → Result User
  pub compare : Text → Text → Bool
  pub library : JwtLibrary
  pub jwt : JwtService

unfoldable pub role_to_scopes : String → List String
role_to_scopes role =
    if role == "admin"
    then "*" ∷ []
    else if role == "agent" || role == "developer"
    then "cinema" ∷ []
    else []

abbrev pub default_tenant : String → String
default_tenant tenant = if tenant == "" then "t1" else tenant

abbrev pub principal_of : User → Principal
principal_of user = record {
  tenant_id = user.tenant_id;
  user_id = user.id;
  username = user.username;
  role = user.role;
  scopes = role_to_scopes user.role;
}

-- The lifetime that is announced does not depend on the lifetime of the token.
abbrev pub login_response : User → Text → LoginResponse
login_response user token = record {
  access_token = token;
  token_type = "Bearer";
  expires_in = 240 * 60;
  user_id = user.id;
  tenant_id = user.tenant_id;
  username = user.username;
  role = user.role;
}

abbrev pub token_answer : User → Result Text → Result LoginResponse
token_answer user (err e) = err (other "failed to generate token")
token_answer user (ok token) = ok (login_response user token)

abbrev pub user_error : Error → Error
user_error not_found = invalid_credentials
user_error e = other "failed to get user"

module _ (s : AuthService) where
  abbrev pub login_as : LoginRequest → ℕ → Result User → Result LoginResponse
  login_as req now (err e) = err (user_error e)
  login_as req now (ok user) =
      if not (s.compare user.password_hash req.password)
      then err invalid_credentials
      else token_answer user (generate_token s.library s.jwt (principal_of user) now)

  unfoldable pub login : LoginRequest → ℕ → Result LoginResponse
  login req now = login_as req now (s.get_by_username (default_tenant req.tenant_id) req.username)
