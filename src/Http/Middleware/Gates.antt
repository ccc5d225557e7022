-- ===== src/Http/Middleware/Gates.antt =====
-- What passes the middlewares.
use poc_dcs.Common.{
  String, Text, bytes, ◌≡◌, ◌≢◌, ◌⊎◌, refl, Bool-cases, inl, inr, false, Option, none, some, Result,
  ok, err, string_eq, ◌==◌, bytes,
}
use poc_dcs.Strings.{trim_space}
use poc_dcs.Auth.Jwt.{JwtClaims}
use poc_dcs.Service.System.{System}
use poc_dcs.Http.Exchange.{
  Request, Response, Handler, principal_from_request, read_header_or_default,
}
use poc_dcs.Http.Server.{Server}
use poc_dcs.Http.Middleware.{
  bearer_token, with_claims, validated, with_token, admin_only, admin_middleware,
  optional_jwt_middleware,
}

module _ {R : Type 0} (server : Server R) where
  -- The request has a token of an administrator.
  pub record IsAdmin (r : Request) (s : System R) : Type 0 where
    pub token : Text
    pub claims : JwtClaims
    pub bearer : bearer_token (bytes (r.header "Authorization")) ≡ some token
    pub accepted : validated server s token ≡ ok claims
    pub admin : claims.role ≡ "admin"

  -- The request is answered with 401 or 403, and nothing has changed.
  abbrev pub IsTurnedAway : Response × System R → System R → Type 0
  IsTurnedAway answer s = (answer.1 ≡ s) × ((answer.0.code ≡ 401) ⊎ (answer.0.code ≡ 403))

  abbrev pub Gate : Handler R → Request → System R → Response × System R → Type 0
  Gate next r s answer =
      ((admin : IsAdmin r s) × (answer ≡ next (some admin.claims) r s)) ⊎ IsTurnedAway answer s

  with_claims-Gate :
      (next : Handler R) (r : Request) (s : System R) (token : Text) (result : Result JwtClaims)
      → bearer_token (bytes (r.header "Authorization")) ≡ some token
      → validated server s token ≡ result
      → Gate next r s (with_claims server (admin_only server next) result r s)
  with_claims-Gate next r s token (err e) bearer is = inr (refl, inl refl)
  with_claims-Gate next r s token (ok claims) bearer is =
      elim (Bool-cases (claims.role == "admin")) [
        | inl admin ↦ inl (
          record {
            token = token;
            claims = claims;
            bearer = bearer;
            accepted = is;
            admin = (string_eq.beq_iff claims.role "admin").0 admin;
          },
          rw admin refl,
        )
        | inr other' ↦ inr (rw other' (refl, inr refl))
      ]

  with_token-Gate :
      (next : Handler R) (r : Request) (s : System R) (found : Option Text)
      → bearer_token (bytes (r.header "Authorization")) ≡ found
      → Gate next r s (with_token server (admin_only server next) found r s)
  with_token-Gate next r s none bearer = inr (refl, inl refl)
  with_token-Gate next r s (some token) bearer =
      with_claims-Gate next r s token (validated server s token) bearer refl

  -- Behind the middleware of the administrators a handler runs, with the claims of an accepted token
  -- whose role is `admin`, or the request is turned away.
  pub admin_middleware_lem :
      (next : Handler R) (claims : Option JwtClaims) (r : Request) (s : System R)
      → ((admin : IsAdmin r s) × (admin_middleware server next claims r s
            ≡ next (some admin.claims) r s))
        ⊎ IsTurnedAway (admin_middleware server next claims r s) s
  unfolding admin_middleware
  admin_middleware_lem next claims r s = elim (Bool-cases (r.header "Authorization" == "")) [
    | inl missing ↦ inr (rw missing (refl, inl refl))
    | inr given ↦
        rw given (with_token-Gate next r s (bearer_token (bytes (r.header "Authorization"))) refl)
  ]

  -- Without an authorization header the handlers behind the optional middleware serve whatever role
  -- the header `X-Role` names.
  optional_jwt_any_role :
      (next : Handler R) (claims : Option JwtClaims) (r : Request) (s : System R) (role : String)
      → r.header "Authorization" ≡ ""
      → trim_space (r.header "X-Role") ≡ role
      → role ≢ ""
      → (optional_jwt_middleware server next claims r s ≡ next none r s)
        × ((principal_from_request none r).role ≡ role)
  unfolding optional_jwt_middleware principal_from_request read_header_or_default
  optional_jwt_any_role next claims r s role missing named some_role =
      let given : (role == "") ≡ false = elim (Bool-cases (role == "")) [
        | inl blank ↦ absurd (some_role ((string_eq.beq_iff role "").0 blank))
        | inr other' ↦ other'
      ] in
      (rw missing refl, rw (named, given) refl)
