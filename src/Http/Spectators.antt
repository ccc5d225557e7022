-- ===== src/Http/Spectators.antt =====
-- internal/transport/http/handle_spectator.go.
use poc_dcs.Common.{
  bytes, not, Option, none, some, List, [], Result, ok, err, string_eq, text_eq, ◌==◌,
  if◌then◌else◌,
}
use poc_dcs.Service.System.{System, is_forbidden}
use poc_dcs.Service.Spectators.{SpectatorOutput, SpectatorCreateInput, create, search}
use poc_dcs.Http.Exchange.{Response, Handler, respond, plain, spectator, spectators}
use poc_dcs.Http.Server.{Server, is_not_found}
use poc_dcs.Http.Films.{caller, asked}

module _ {R : Type 0} (server : Server R) where
  abbrev pub answer_spectator : Result SpectatorOutput × System R → Response × System R
  answer_spectator (ok out, s) = respond 200 (spectator out) s
  answer_spectator (err e, s) =
      if is_forbidden e
      then respond 403 (plain "Forbidden") s
      else if is_not_found e
      then respond 404 (plain "Hall not found") s
      else respond 500 (plain "internal error") s

  abbrev pub spectator_decoded : Option SpectatorCreateInput → Handler R
  spectator_decoded none claims r s = respond 400 (plain "invalid request body") s
  spectator_decoded (some req) claims r s =
      if req.hall_id == []
      then respond 422 (plain "hall_id is required") s
      else if req.name == []
      then respond 422 (plain "name is required") s
      else if req.external_id == []
      then respond 422 (plain "external_id is required") s
      else answer_spectator
          (create server.spectators (caller server claims r) (asked server r) req s)

  unfoldable pub handle_spectators : Handler R
  handle_spectators claims r s =
      if not (r.method == "POST")
      then respond 405 (plain "Method not allowed") s
      else spectator_decoded (server.decoders.spectator r.body) claims r s

  abbrev pub answer_search : Result (List SpectatorOutput) × System R → Response × System R
  answer_search (ok out, s) = respond 200 (spectators out) s
  answer_search (err e, s) =
      if is_forbidden e
      then respond 403 (plain "Forbidden") s
      else respond 500 (plain "internal error") s

  unfoldable pub handle_search_spectators : Handler R
  handle_search_spectators claims r s =
      if not (r.method == "GET")
      then respond 405 (plain "Method not allowed") s
      else if r.query "external_id" == ""
      then respond 422 (plain "external_id query parameter is required") s
      else answer_search (
          search server.spectators (caller server claims r) (asked server r)
            (bytes (r.query "external_id")) s)
