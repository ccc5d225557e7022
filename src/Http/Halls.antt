-- ===== src/Http/Halls.antt =====
-- internal/transport/http/handle_hall.go.
use poc_dcs.Common.{
  not, Option, none, some, List, [], Result, ok, err, string_eq, text_eq, ◌==◌, if◌then◌else◌,
}
use poc_dcs.Service.System.{System, is_forbidden}
use poc_dcs.Service.Halls.{HallOutput, HallCreateInput, create_hall, list_halls}
use poc_dcs.Http.Exchange.{Response, Handler, respond, empty, detail, hall, halls}
use poc_dcs.Http.Server.{Server}
use poc_dcs.Http.Films.{caller, asked, trim}

module _ {R : Type 0} (server : Server R) where
  abbrev pub answer_halls : Result (List HallOutput) × System R → Response × System R
  answer_halls (ok out, s) = respond 200 (halls out) s
  answer_halls (err e, s) = respond 500 (detail "internal server error") s

  unfoldable pub handle_list_halls : Handler R
  handle_list_halls claims r s =
      answer_halls (list_halls server.halls (caller server claims r) (asked server r) s)

  abbrev pub answer_hall : Result HallOutput × System R → Response × System R
  answer_hall (ok out, s) = respond 200 (hall out) s
  answer_hall (err e, s) =
      if is_forbidden e
      then respond 403 (detail "forbidden") s
      else respond 500 (detail "internal server error") s

  abbrev pub trimmed_hall : HallCreateInput → HallCreateInput
  trimmed_hall req = record {
    name = trim req.name;
    owner_user_id = trim req.owner_user_id;
    current_film_id = trim req.current_film_id;
  }

  abbrev pub hall_decoded : Option HallCreateInput → Handler R
  hall_decoded none claims r s = respond 400 (detail "invalid JSON body") s
  hall_decoded (some req) claims r s =
      if trim req.name == []
      then respond 400 (detail "name is required") s
      else if trim req.owner_user_id == []
      then respond 400 (detail "owner_user_id is required") s
      else if trim req.current_film_id == []
      then respond 400 (detail "current_film_id is required") s
      else answer_hall
          (create_hall server.halls (caller server claims r) (asked server r) (trimmed_hall req) s)

  unfoldable pub handle_create_hall : Handler R
  unfolding trim
  handle_create_hall claims r s =
      if not (r.method == "POST")
      then respond 405 empty s
      else hall_decoded (server.decoders.hall r.body) claims r s

  unfoldable pub handle_halls : Handler R
  unfolding handle_list_halls handle_create_hall
  handle_halls claims r s =
      if r.method == "GET"
      then handle_list_halls claims r s
      else if r.method == "POST"
      then handle_create_hall claims r s
      else respond 405 empty s
