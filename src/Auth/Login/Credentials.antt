-- ===== src/Auth/Login/Credentials.antt =====
-- Who is logged in, and what a refusal tells.
use poc_dcs.Common.{
  Text, ℕ, ◌<◌, ◌+◌, ◌≡◌, refl, Bool, true, false, not, Result, ok, err, not_found,
  invalid_credentials, if◌then◌else◌,
}
use poc_dcs.Auth.Jwt.{
  JwtClaims, carried, claims_for, generate_token, validate_token, claims_to_principal,
}
use poc_dcs.Auth.Jwt.Valid.{ParsesSigned, validate-generate_token}
use poc_dcs.Auth.Login.{
  AuthService, User, LoginRequest, LoginResponse, login, login_as, default_tenant, principal_of,
  token_answer,
}

matched-ok :
    (same : Bool) (answer : Result LoginResponse) (resp : LoginResponse)
    → (if not same then err invalid_credentials else answer) ≡ ok resp
    → (same ≡ true) × (answer ≡ ok resp)
matched-ok true answer resp h = (refl, h)
matched-ok false answer resp h = cc

token_answer-ok :
    (user : User) (r : Result Text) (resp : LoginResponse)
    → token_answer user r ≡ ok resp
    → r ≡ ok resp.access_token
token_answer-ok user (err e) resp h = cc
token_answer-ok user (ok token) resp h = cc

module _ (s : AuthService) where
  -- An unknown user and a known user with a wrong password are answered alike, so that a refusal
  -- does not tell whether the name exists.
  login_uniform :
      (unknown wrong : LoginRequest) (now : ℕ) (user : User)
      → s.get_by_username (default_tenant unknown.tenant_id) unknown.username ≡ err not_found
      → s.get_by_username (default_tenant wrong.tenant_id) wrong.username ≡ ok user
      → s.compare user.password_hash wrong.password ≡ false
      → (login s unknown now ≡ err invalid_credentials) × (login s wrong now ≡ login s unknown now)
  unfolding login
  login_uniform unknown wrong now user missing found mismatch =
      rw (missing, found, mismatch) (refl, refl)

  login_as-ok :
      (req : LoginRequest) (now : ℕ) (r : Result User) (resp : LoginResponse)
      → login_as s req now r ≡ ok resp
      → (user : User) × (r ≡ ok user)
        × (s.compare user.password_hash req.password ≡ true)
        × (generate_token s.library s.jwt (principal_of user) now ≡ ok resp.access_token)
  login_as-ok req now (err e) resp h = cc
  login_as-ok req now (ok user) resp h =
      let token = generate_token s.library s.jwt (principal_of user) now in
      let (same, made) =
        matched-ok (s.compare user.password_hash req.password) (token_answer user token) resp h in
      (user, refl, same, token_answer-ok user token resp made)

  -- With a library that parses what it signed: a login that succeeds found the user of the tenant and
  -- compared the password; until the lifetime of the token has passed, the token is accepted and
  -- stands for that user, with the user's role.
  pub login_token :
      (req : LoginRequest) (issued now : ℕ) (resp : LoginResponse)
      → ParsesSigned s.library
      → login s req issued ≡ ok resp
      → now < issued + s.jwt.ttl
      → (user : User) × (s.get_by_username (default_tenant req.tenant_id) req.username ≡ ok user)
        × (s.compare user.password_hash req.password ≡ true)
        × (claims : JwtClaims) × (validate_token s.library s.jwt now resp.access_token ≡ ok claims)
        × (claims_to_principal s.library s.jwt claims ≡ principal_of user)
  unfolding login
  login_token req issued now resp parses done alive =
      let (user, found, same, made) =
        login_as-ok req issued (s.get_by_username (default_tenant req.tenant_id) req.username) resp
          done in
      let (accepted, whose) =
        validate-generate_token s.library s.jwt (principal_of user) issued now resp.access_token
          parses made alive in
      (
        user,
        found,
        same,
        carried (claims_for s.library s.jwt (principal_of user) issued),
        accepted,
        whose,
      )
