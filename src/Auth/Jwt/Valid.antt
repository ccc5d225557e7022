-- ===== src/Auth/Jwt/Valid.antt =====
-- Which tokens are accepted, and whom they stand for.
use poc_dcs.Common.{
  String, Text, arith, ℕ, ◌<◌, ◌+◌, ◌≡◌, refl, true, false, Option, none, some, List, [], ◌∷◌,
  Result, ok, err, elem, string_eq, ◌==◌, beq_refl, Bool,
}
use poc_dcs.Types.{Principal}
use poc_dcs.Auth.Jwt.{
  JwtClaims, carried, SigningMethod, hmac, another, Token, Keyfunc, JwtLibrary, JwtService,
  is_audience, claims_for, signed_answer, generate_token, key_for, checked_claims, claims_answer,
  parsed_answer, validate_token, claims_to_principal,
}

-- golang-jwt, as documented: a token that was signed with a secret is parsed, and is valid, with the
-- claims that it carries, if the key function gives that secret for HMAC and the token has not
-- expired.
abbrev pub ParsesSigned : JwtLibrary → Type 0
ParsesSigned library =
    (secret : String) (claims : JwtClaims) (token : Text) (now : ℕ) (key : Keyfunc)
    → library.sign_hs256 secret claims ≡ ok token
    → now < claims.expires_at
    → key hmac ≡ ok secret
    → library.parse_with_claims now key token
      ≡ ok (record { claims = some (carried claims); valid = true })

-- golang-jwt, as documented: a token is parsed only with a key that the key function gave for its
-- method, and the method of a token is fixed by its header.
abbrev pub AsksForKey : JwtLibrary → (Text → SigningMethod) → Type 0
AsksForKey library method_of =
    (now : ℕ) (key : Keyfunc) (token : Text) (parsed : Token)
    → library.parse_with_claims now key token ≡ ok parsed
    → (secret : String) × (key (method_of token) ≡ ok secret)

is_audience-elem :
    (ours : String) (audience : List String)
    → is_audience ours audience ≡ true
    → elem ours audience ≡ true
is_audience-elem ours [] h = h
is_audience-elem ours (aud ∷ audience) h = ground (arith, is_audience-elem ours audience)

module _ (library : JwtLibrary) (j : JwtService) where
  signed_answer-ok :
      (r : Result Text) (token : Text) → signed_answer library j r ≡ ok token → r ≡ ok token
  signed_answer-ok (ok signed) token h = h
  signed_answer-ok (err e) token h = cc

  checked_claims-ok :
      (claims given : JwtClaims)
      → checked_claims library j claims ≡ ok given
      → (claims ≡ given)
        × (is_audience j.audience given.audience ≡ true)
        × ((given.issuer == j.issuer) ≡ true)
  checked_claims-ok claims given h = ground arith

  claims_answer-ok :
      (claims : Option JwtClaims) (valid : Bool) (given : JwtClaims)
      → claims_answer library j claims valid ≡ ok given
      → (is_audience j.audience given.audience ≡ true) × ((given.issuer == j.issuer) ≡ true)
  claims_answer-ok none valid given h = cc
  claims_answer-ok (some claims) false given h = cc
  claims_answer-ok (some claims) true given h =
      let (same, audience, issuer) = checked_claims-ok claims given h in (audience, issuer)

  parsed_answer-ok :
      (r : Result Token) (given : JwtClaims)
      → parsed_answer library j r ≡ ok given
      → (parsed : Token) × (r ≡ ok parsed)
        × (is_audience j.audience given.audience ≡ true)
        × ((given.issuer == j.issuer) ≡ true)
  parsed_answer-ok (err e) given h = cc
  parsed_answer-ok (ok parsed) given h =
      let (audience, issuer) = claims_answer-ok parsed.claims parsed.valid given h in
      (parsed, refl, audience, issuer)

  key_for-hmac : (m : SigningMethod) (secret : String) → key_for library j m ≡ ok secret → m ≡ hmac
  key_for-hmac hmac secret h = refl
  key_for-hmac (another alg) secret h = cc

  -- A token that is accepted is signed by HMAC, is for the audience of the service and was issued by
  -- its issuer.
  pub validate_token_sound :
      (method_of : Text → SigningMethod) (now : ℕ) (token : Text) (claims : JwtClaims)
      → AsksForKey library method_of
      → validate_token library j now token ≡ ok claims
      → (method_of token ≡ hmac)
        × (elem j.audience claims.audience ≡ true)
        × (claims.issuer ≡ j.issuer)
  unfolding validate_token
  validate_token_sound method_of now token claims asks h =
      let (parsed, was, audience, issuer) =
        parsed_answer-ok (library.parse_with_claims now (key_for library j) token) claims h in
      let (secret, given) = asks now (key_for library j) token parsed was in
      (
        key_for-hmac (method_of token) secret given,
        is_audience-elem j.audience claims.audience audience,
        (string_eq.beq_iff claims.issuer j.issuer).0 issuer,
      )

  -- With a library that parses what it signed, the token generated for a principal is accepted until
  -- its lifetime has passed, with the claims that it carries, which leave out the registered
  -- subject, and stands for that principal.
  pub validate-generate_token :
      (principal : Principal) (issued now : ℕ) (token : Text)
      → ParsesSigned library
      → generate_token library j principal issued ≡ ok token
      → now < issued + j.ttl
      → (validate_token library j now token ≡ ok (carried (claims_for library j principal issued)))
        × (claims_to_principal library j (carried (claims_for library j principal issued))
            ≡ principal)
  unfolding validate_token generate_token
  validate-generate_token principal issued now token parses made alive =
      let signed =
        signed_answer-ok (library.sign_hs256 j.secret (claims_for library j principal issued)) token
          made in
      let parsed =
        parses j.secret (claims_for library j principal issued) token now (key_for library j) signed
          alive refl in
      (rw (parsed, beq_refl j.audience, beq_refl j.issuer) refl, refl)
