-- ===== src/Http/Films/Answers.antt =====
-- Which film a path names, and what an answered creation went through.
use poc_dcs.Common.{
  Text, bytes, ◌≡◌, ◌≢◌, refl, ap, ◌∙◌, Bool, Bool-cases, inl, inr, true, false, not, Option, none,
  some, [], ◌∷◌, ◌++◌, All, eqb, Result, ok, err, arith, is_negative, if◌then◌else◌, string_eq,
  text_eq, ◌==◌,
}
use poc_dcs.Kms.Lookup.{strip_prefix-append}
use poc_dcs.Pdp.Allows.{Permits}
use poc_dcs.Enforcer.Authorize.{NoCollision, IsSound}
use poc_dcs.Auth.Jwt.{JwtClaims}
use poc_dcs.Service.System.{System}
use poc_dcs.Service.Films.{FilmOutput, FilmCreateInput, create}
use poc_dcs.Service.Films.Audited.{create_permitted}
use poc_dcs.Http.Exchange.{Request, Response, respond, empty, detail}
use poc_dcs.Http.Server.{Server}
use poc_dcs.Http.Films.{
  trim, split_slash, time_target, after_prefix, film_of_path, caller, asked, answer_create,
  trimmed_input, create_decoded, handle_create_film,
}

abbrev pub HasNoSlash : Text → Type 0
HasNoSlash s = All (λ b. eqb b b'/' ≡ false) s

split_slash_of_segment :
    (id : Text) → HasNoSlash id → split_slash (id ++ bytes "/time") ≡ (id, bytes "time" ∷ [])
unfolding split_slash
split_slash_of_segment [] h = refl
split_slash_of_segment (b ∷ id) (no_slash, rest) =
    rw (no_slash, split_slash_of_segment id rest) refl

-- The path of a film's time names the film: an identifier without slashes that is not blank is read
-- back from `/films/{id}/time`.
film_of_path_of_time :
    (id : Text)
    → HasNoSlash id
    → trim id ≢ []
    → film_of_path (bytes "/films/" ++ (id ++ bytes "/time")) ≡ some id
unfolding film_of_path
film_of_path_of_time id no_slash not_blank =
    let given : (trim id == []) ≡ false = elim (Bool-cases (trim id == [])) [
      | inl blank ↦ absurd (not_blank ((text_eq.beq_iff (trim id) []).0 blank))
      | inr other' ↦ other'
    ] in
    let path = bytes "/films/" ++ (id ++ bytes "/time") in
    ap (λ o. time_target (split_slash (after_prefix path o)))
      (strip_prefix-append (bytes "/films/") (id ++ bytes "/time"))
    ∙ ap time_target (split_slash_of_segment id no_slash)
    ∙ rw given refl

module _ {R : Type 0} (server : Server R) where
  -- What the body of an answered creation was.
  pub record IsAcceptable (r : Request) : Type 0 where
    pub request : FilmCreateInput
    pub decoded : server.decoders.film r.body ≡ some request
    pub titled : (trim request.title == []) ≡ false
    pub elapsed : is_negative request.time_elapsed ≡ false

  past_200 :
      (b : Bool) (x y : Response × System R)
      → x.0.code ≢ 200
      → (if b then x else y).0.code ≡ 200
      → (b ≡ false) × (y.0.code ≡ 200)
  past_200 true x y fails h = absurd (fails h)
  past_200 false x y fails h = (refl, h)

  answer_create_200 :
      (answer : Result FilmOutput × System R)
      → (answer_create server answer).0.code ≡ 200
      → (out : FilmOutput) × (answer.0 ≡ ok out)
  answer_create_200 (ok out, s) h = (out, refl)
  answer_create_200 (err e, s) h = ground arith

  create_decoded_200 :
      (body : Option FilmCreateInput) (claims : Option JwtClaims) (r : Request) (s : System R)
      → (create_decoded server body claims r s).0.code ≡ 200
      → (req : FilmCreateInput) × (out : FilmOutput) × (body ≡ some req)
        × ((trim req.title == []) ≡ false)
        × (is_negative req.time_elapsed ≡ false)
        × ((create server.films
              (caller server claims r)
              (asked server r)
              (trimmed_input server req)
              s).0
            ≡ ok out)
  create_decoded_200 none claims r s h = ground arith
  create_decoded_200 (some req) claims r s h =
      let made =
        create server.films (caller server claims r) (asked server r) (trimmed_input server req)
          s in
      let (titled, rest) =
        past_200 (trim req.title == []) (respond 400 (detail "title is required") s) _
          (λ failed. omega (arith, failed)) h in
      let (elapsed, answered) =
        past_200 (is_negative req.time_elapsed)
          (respond 400 (detail "time_elapsed must be non-negative") s) (answer_create server made)
          (λ failed. omega (arith, failed)) rest in
      let (out, is) = answer_create_200 made answered in (req, out, refl, titled, elapsed, is)

  -- A `POST` of a film that is answered with 200 had a body with a title that is not blank and a time
  -- that is not negative, and the configuration permits `film.create` to the role of the caller.
  pub handle_create_film_permitted :
      (claims : Option JwtClaims) (r : Request) (s : System R)
      → NoCollision server.films.enforcer.digests
      → IsSound server.films.enforcer s.world
      → (handle_create_film server claims r s).0.code ≡ 200
      → IsAcceptable r
        × Permits server.films.enforcer.pdp_config "film.create" (caller server claims r).role
  unfolding handle_create_film
  handle_create_film_permitted claims r s no_collision sound h =
      let (req, out, decoded, titled, elapsed, made) =
        create_decoded_200 (server.decoders.film r.body) claims r s
          (past_200 (not (r.method == "POST")) (respond 405 empty s)
            (create_decoded server (server.decoders.film r.body) claims r s)
            (λ failed. omega (arith, failed)) h).1 in
      (
        record { request = req; decoded = decoded; titled = titled; elapsed = elapsed },
        create_permitted server.films (caller server claims r) (asked server r)
            (trimmed_input server req) s out no_collision sound made,
      )
