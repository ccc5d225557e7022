-- ===== src/Http/Films.antt =====
-- internal/transport/http/handle_film.go.
pub mod Answers
use poc_dcs.Common.{
  String, Text, bytes, ℕ, ℤ, Bool, true, not, ◌||◌, Option, none, some, List, [], ◌∷◌, eqb, Result,
  ok, err, Error, forbidden, is_negative, string_eq, text_eq, ◌==◌, if◌then◌else◌,
}
use poc_dcs.Kms
use poc_dcs.Kms.{strip_prefix}
use poc_dcs.Strconv.{atoi}
use poc_dcs.Types.{Principal, RequestContext}
use poc_dcs.Service.System.{System, is_forbidden}
use poc_dcs.Service.Films.{FilmOutput, FilmCreateInput, create, list, update_time}
use poc_dcs.Http.Exchange.{
  Request, Response, Handler, respond, empty, detail, failure, film, films, principal_from_request,
  request_context_from_request,
}
use poc_dcs.Http.Parameters.{not_negative}
use poc_dcs.Http.Server.{Server, is_not_found}
use poc_dcs.Auth.Jwt.{JwtClaims}

-- `strings.TrimSpace` on ASCII.
unfoldable pub trim : Text → Text
unfolding Kms.trim_left Kms.trim_right
trim s = Kms.trim_right (Kms.trim_left s)

-- `strings.Split(s, "/")`: the first part, and the others.
unfoldable pub split_slash : Text → Text × List Text
split_slash [] = ([], [])
split_slash (b ∷ s) =
    let (first, others) = split_slash s in
    if eqb b b'/' then ([], first ∷ others) else (b ∷ first, others)

-- `strings.TrimPrefix(path, "/films/")`
abbrev pub after_prefix : Text → Option Text → Text
after_prefix path none = path
after_prefix path (some rest) = rest

-- The identifier of `/films/{id}/time`.
abbrev pub time_target : Text × List Text → Option Text
time_target (first, []) = none
time_target (first, second ∷ []) =
    if not (second == bytes "time") || trim first == [] then none else some first
time_target (first, second ∷ third ∷ others) = none

unfoldable pub film_of_path : Text → Option Text
unfolding split_slash trim
film_of_path path =
    time_target (split_slash (after_prefix path (strip_prefix (bytes "/films/") path)))

module _ {R : Type 0} (server : Server R) where
  abbrev pub caller : Option JwtClaims → Request → Principal
  caller claims r = principal_from_request claims r

  abbrev pub asked : Request → RequestContext
  asked r = request_context_from_request r server.env

  abbrev pub answer_list : Result (List FilmOutput) × System R → Response × System R
  answer_list (ok out, s) = respond 200 (films out) s
  answer_list (err e, s) = respond 500 (failure e) s

  unfoldable pub handle_list_films : Handler R
  handle_list_films claims r s = answer_list (list server.films (caller claims r) (asked r) s)

  abbrev pub answer_create : Result FilmOutput × System R → Response × System R
  answer_create (ok out, s) = respond 200 (film out) s
  answer_create (err e, s) =
      if is_forbidden e
      then respond 403 (detail "forbidden") s
      else respond 500 (detail "internal server error") s

  abbrev pub trimmed_input : FilmCreateInput → FilmCreateInput
  trimmed_input req = record req { title = trim req.title }

  abbrev pub create_decoded : Option FilmCreateInput → Handler R
  create_decoded none claims r s = respond 400 (detail "invalid JSON body") s
  create_decoded (some req) claims r s =
      if trim req.title == []
      then respond 400 (detail "title is required") s
      else if is_negative req.time_elapsed
      then respond 400 (detail "time_elapsed must be non-negative") s
      else answer_create (create server.films (caller claims r) (asked r) (trimmed_input req) s)

  unfoldable pub handle_create_film : Handler R
  unfolding trim
  handle_create_film claims r s =
      if not (r.method == "POST")
      then respond 405 empty s
      else create_decoded (server.decoders.film r.body) claims r s

  unfoldable pub handle_films : Handler R
  unfolding handle_list_films handle_create_film
  handle_films claims r s =
      if r.method == "GET"
      then handle_list_films claims r s
      else if r.method == "POST"
      then handle_create_film claims r s
      else respond 405 empty s

  abbrev pub answer_update : Result FilmOutput × System R → Response × System R
  answer_update (ok out, s) = respond 200 (film out) s
  answer_update (err e, s) =
      if is_forbidden e
      then respond 403 (detail "forbidden") s
      else if is_not_found e
      then respond 404 (detail "film not found") s
      else respond 500 (failure e) s

  abbrev pub update_parsed : Text → Option ℤ → Handler R
  update_parsed id none claims r s =
      respond 400 (detail "time_elapsed must be a non-negative integer") s
  update_parsed id (some time_elapsed) claims r s =
      answer_update (update_time server.films (caller claims r) (asked r) id time_elapsed s)

  abbrev pub update_target : Option Text → Handler R
  update_target none claims r s = respond 404 (detail "not found") s
  update_target (some id) claims r s =
      update_parsed id (not_negative (atoi (bytes (r.query "time_elapsed")))) claims r s

  unfoldable pub handle_film_subroutes : Handler R
  unfolding handle_films film_of_path atoi
  handle_film_subroutes claims r s =
      if r.path == bytes "/films/" || r.path == bytes "/films"
      then handle_films claims r s
      else if not (r.method == "PATCH")
      then respond 405 empty s
      else update_target (film_of_path r.path) claims r s
