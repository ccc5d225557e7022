-- ===== src/Tests/Tokens.antt =====
-- Tokens and logins, with a library that signs and parses the one token of a small deployment.
use poc_dcs.Common.{
  String, Text, bytes, ℕ, ◌<◌, ltb, eqb, ◌≡◌, refl, arith, Bool, true, false, ◌&&◌, some, List, [],
  ◌∷◌, Result, ok, err, other, not_found, string_eq, text_eq, ◌==◌, if◌then◌else◌, elem, sym, subst,
  ◌≢◌, Bool-cases, inl, inr,
}
use poc_dcs.Types.{Principal}
use poc_dcs.Auth.Jwt.{
  JwtClaims, carried, hmac, Token, JwtLibrary, JwtService, new_jwt_service, generate_token,
  validate_token, claims_for, claims_to_principal,
}
use poc_dcs.Auth.Jwt.Valid.{ParsesSigned, AsksForKey, validate_token_sound, validate-generate_token}
use poc_dcs.Auth.Login.{
  AuthService, User, LoginRequest, login, login_response, principal_of, default_tenant,
  role_to_scopes,
}
use poc_dcs.Auth.Login.Credentials.{login_token}

abbrev pub user : User
user = record {
  id = "u-1";
  tenant_id = "acme";
  username = "ada";
  password_hash = bytes "#secret";
  role = "admin";
}

abbrev pub ada : Principal
ada = record {
  tenant_id = "acme";
  user_id = "u-1";
  username = "ada";
  role = "admin";
  scopes = "*" ∷ [];
}

abbrev pub claims : JwtClaims
claims = record {
  user_id = "u-1";
  tenant_id = "acme";
  username = "ada";
  role = "admin";
  scopes = "*" ∷ [];
  issuer = "poc";
  audience = "ui" ∷ [];
  subject = "u-1";
  issued_at = 100;
  expires_at = 160;
}

abbrev only : String → List String → Bool
only s [] = false
only s (x ∷ []) = x == s
only s (x ∷ y ∷ xs) = false

only_lem : (s : String) (xs : List String) → only s xs ≡ true → xs ≡ s ∷ []
only_lem s [] h = cc
only_lem s (x ∷ []) h = cc ((string_eq.beq_iff x s).0 h)
only_lem s (x ∷ y ∷ xs) h = cc

abbrev is_claims : JwtClaims → Bool
is_claims c =
    c.user_id == "u-1"
    && c.tenant_id == "acme"
    && c.username == "ada"
    && c.role == "admin"
    && only "*" c.scopes
    && c.issuer == "poc"
    && only "ui" c.audience
    && c.subject == "u-1"
    && eqb c.issued_at 100
    && eqb c.expires_at 160

is_claims_lem : (c : JwtClaims) → is_claims c ≡ true → c ≡ claims
is_claims_lem c h =
    let has_user_id : c.user_id ≡ "u-1" = (string_eq.beq_iff c.user_id "u-1").0 (ground arith) in
    let has_tenant_id : c.tenant_id ≡ "acme" =
      (string_eq.beq_iff c.tenant_id "acme").0 (ground arith) in
    let has_username : c.username ≡ "ada" = (string_eq.beq_iff c.username "ada").0 (ground arith) in
    let has_role : c.role ≡ "admin" = (string_eq.beq_iff c.role "admin").0 (ground arith) in
    let has_scopes : c.scopes ≡ "*" ∷ [] = only_lem "*" c.scopes (ground arith) in
    let has_issuer : c.issuer ≡ "poc" = (string_eq.beq_iff c.issuer "poc").0 (ground arith) in
    let has_audience : c.audience ≡ "ui" ∷ [] = only_lem "ui" c.audience (ground arith) in
    let has_subject : c.subject ≡ "u-1" = (string_eq.beq_iff c.subject "u-1").0 (ground arith) in
    let has_issued_at : c.issued_at ≡ 100 = ground arith in
    let has_expires_at : c.expires_at ≡ 160 = ground arith in
    λ i. record {
      user_id = has_user_id i;
      tenant_id = has_tenant_id i;
      username = has_username i;
      role = has_role i;
      scopes = has_scopes i;
      issuer = has_issuer i;
      audience = has_audience i;
      subject = has_subject i;
      issued_at = has_issued_at i;
      expires_at = has_expires_at i;
    }

abbrev pub token : Text
token = bytes "t.o.ken"

abbrev judged : ℕ → Result String → Result Token
judged now (err e) = err e
judged now (ok key) =
    if key == "s3cret" && ltb now 160
    then ok (record { claims = some (carried claims); valid = true })
    else err (other "token is invalid")

abbrev pub library : JwtLibrary
library = record {
  sign_hs256 = λ secret c.
      if secret == "s3cret" && is_claims c then ok token else err (other "another token");
  parse_with_claims =
      λ now key t. if t == token then judged now (key hmac) else err (other "token is malformed");
}

abbrev pub service : JwtService
service = new_jwt_service "s3cret" "poc" "ui" 1

signed_lem :
    (known issued : Bool) (t : Text)
    → (if known && issued then ok token else err (other "another token")) ≡ ok t
    → (known ≡ true) × (issued ≡ true) × (token ≡ t)
signed_lem true true t h = (refl, refl, cc)
signed_lem true false t h = cc
signed_lem false issued t h = cc

within : (now : ℕ) → now < 160 → ltb now 160 ≡ true
within now h = ground arith

judged_lem :
    (now : ℕ) (r : Result String) (parsed : Token)
    → judged now r ≡ ok parsed
    → (secret : String) × (r ≡ ok secret)
judged_lem now (err e) parsed h = cc
judged_lem now (ok key) parsed h = (key, refl)

library-ParsesSigned : ParsesSigned library
library-ParsesSigned secret c t now key signed alive given =
    let (known, issued, same) = signed_lem (secret == "s3cret") (is_claims c) t signed in
    let named : secret ≡ "s3cret" = (string_eq.beq_iff secret "s3cret").0 known in
    let own : c ≡ claims = is_claims_lem c issued in
    let in_time : ltb now 160 ≡ true = within now (subst (λ x. now < x.expires_at) own alive) in
    rw (sym same, given, named, own, in_time) refl

library-AsksForKey : AsksForKey library (λ t. hmac)
library-AsksForKey now key t parsed h = elim (Bool-cases (text_eq.same t token)) [
  | inl same ↦ judged_lem now (key hmac) parsed (
      subst
        (λ b. (if b then judged now (key hmac) else err (other "token is malformed")) ≡ ok parsed)
        same h)
  | inr different ↦ absurd (
      malformed (
        subst
          (λ b. (if b then judged now (key hmac) else err (other "token is malformed")) ≡ ok parsed)
          different h))
]
  where
    malformed : err (other "token is malformed") ≢ ok parsed
    malformed e = cc

generated : generate_token library service ada 100 ≡ ok token
unfolding generate_token
generated = refl

validate-generate_token_example :
    (validate_token library service 150 token ≡ ok (carried (claims_for library service ada 100)))
    × (claims_to_principal library service (carried (claims_for library service ada 100)) ≡ ada)
validate-generate_token_example =
    validate-generate_token library service ada 100 150 token library-ParsesSigned generated
      (omega arith)

validated_lem : validate_token library service 150 token ≡ ok (carried claims)
unfolding validate_token
validated_lem = refl

validate_token_sound_example :
    (hmac ≡ hmac) × (elem "ui" claims.audience ≡ true) × (claims.issuer ≡ "poc")
validate_token_sound_example =
    validate_token_sound library service (λ t. hmac) 150 token (carried claims) library-AsksForKey
      validated_lem

abbrev pub auth : AuthService
auth = record {
  get_by_username = λ tenant name. if name == "ada" then ok user else err not_found;
  compare = λ hash password. hash == password;
  library = library;
  jwt = service;
}

abbrev request : String → Text → LoginRequest
request name password = record { username = name; password = password; tenant_id = "" }

logged_in : login auth (request "ada" (bytes "#secret")) 100 ≡ ok (login_response user token)
unfolding login generate_token role_to_scopes
logged_in = refl

login_token_example :
    (u : User) × (auth.get_by_username (default_tenant "") "ada" ≡ ok u)
    × (auth.compare u.password_hash (bytes "#secret") ≡ true)
    × (c : JwtClaims) × (validate_token library service 150 token ≡ ok c)
    × (claims_to_principal library service c ≡ principal_of u)
login_token_example =
    login_token auth (request "ada" (bytes "#secret")) 100 150 (login_response user token)
      library-ParsesSigned logged_in (omega arith)
