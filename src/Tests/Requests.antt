-- ===== src/Tests/Requests.antt =====
-- Whole requests against the small deployment.
use poc_dcs.Common.{
  bytes, pos, ◌≡◌, ◌≢◌, refl, List, [], ◌∷◌, string_eq, text_eq, lookup, insert, false, eq_iff, ok,
  err, forbidden,
}
use poc_dcs.Types.{Decision}
use poc_dcs.Config.{defaults}
use poc_dcs.World.{World}
use poc_dcs.Pip
use poc_dcs.Pdp.{allow_without_dcs, decide, verdict}
use poc_dcs.Pdp.Allows.{Permits, allow_of_permits}
use poc_dcs.Enforcer
use poc_dcs.Enforcer.{
  Parts, asking, decide_on, film_crypto, HallReadInput, HallReadResult, shape_hall,
  enforce_hall_read, FilmCreatePlain, FilmCreateEncrypted, enforce_film_create,
}
use poc_dcs.Repo.Films
use poc_dcs.Runtime
use poc_dcs.Runtime.{dcs_enabled}
use poc_dcs.Strings
use poc_dcs.Strings.{to_lower, trim_space}
use poc_dcs.World
use poc_dcs.Cache.Ttl
use poc_dcs.Pdp
use poc_dcs.Repo.Films.Isolation.{
  Change, creating, updating, AreOf, no_change, another, run, list-run,
}
use poc_dcs.Service.System.{write_audit_log}
use poc_dcs.Service.Films as FilmService
use poc_dcs.Service.Films.Audited.{
  create_refused, update_time_refused, create_request, update_request,
}
use poc_dcs.Tests.Digest.{digests-NoCollision}
use poc_dcs.Tests.Fixtures.{
  parts, start, request, someone, stored, film_service, system, start-CacheIsSound,
}

-- The repository
abbrev others : List Change
others =
    creating "globex" (bytes "Heat") (bytes "1")
    ∷ updating "globex" Films.generate_id (bytes "2")
    ∷ []

others-AreOf : AreOf "acme" others
others-AreOf = another apart (another apart no_change)
  where
    apart : "globex" ≢ stored.tenant_id
    apart h = cc ((eq_iff "globex" "acme").1 h)

list-run_example :
    Films.list_by_tenant "acme" (run others (stored ∷ []))
    ≡ Films.list_by_tenant "acme" (stored ∷ [])
list-run_example = list-run "acme" others (stored ∷ []) others-AreOf

-- A developer asks to create a film.
abbrev asked : Pip.Input
asked = create_request film_service (someone "developer") request

abbrev refused : Decision
refused = record {
  allow = false;
  field_actions = [];
  reason = "write_forbidden";
  hash = "write_forbidden";
}

refused_lem : (decide_on parts asked start).0 ≡ ok refused
unfolding decide_on Enforcer.pdp_decision Pip.build Pip.get_classification_map Pip.cached_or_query
    Pip.query Pip.build_fields Pip.complete_context Pip.static_store World.classification_get
    World.classification_set World.level_enabled World.pdp_get World.pdp_set World.new_manager
    Ttl.new Ttl.get Ttl.set Ttl.make_room Pdp.evaluate Pdp.evaluate_cached Pdp.resolve Pdp.compute
    decide verdict Pdp.decision_hash Pdp.decision_payload Pdp.decision_cache_key Pdp.key_payload
    defaults dcs_enabled Runtime.new Runtime.normalize_mode Runtime.normalize_level to_lower
    trim_space Strings.trim_left Strings.trim_right Strings.lower_char lookup insert
refused_lem = refl

not_permitted : ¬ Permits defaults.pdp "film.create" "developer"
unfolding allow_without_dcs defaults
not_permitted p = cc (allow_of_permits defaults.pdp "film.create" "developer" p)

abbrev plain : FilmService.FilmCreateInput
plain = record { title = bytes "Heat"; time_elapsed = pos 90 }

create_refused_example :
    FilmService.create film_service (someone "developer") request plain system ≡ (
      err forbidden,
      write_audit_log film_service.logs
          (FilmService.film_log (someone "developer") request "film.create" [] "deny")
          (FilmService.write_film_perf film_service
            (someone "developer")
            request
            "film.create"
            (record system { world = (decide_on parts asked start).1 })),
    )
create_refused_example =
    create_refused film_service (someone "developer") request plain system refused
      digests-NoCollision start-CacheIsSound refused_lem not_permitted

update_refused_lem :
    (decide_on parts
      (update_request film_service (someone "developer") request (bytes "7"))
      start).0
    ≡ ok refused
unfolding decide_on Enforcer.pdp_decision Pip.build Pip.get_classification_map Pip.cached_or_query
    Pip.query Pip.build_fields Pip.complete_context Pip.static_store World.classification_get
    World.classification_set World.level_enabled World.pdp_get World.pdp_set World.new_manager
    Ttl.new Ttl.get Ttl.set Ttl.make_room Pdp.evaluate Pdp.evaluate_cached Pdp.resolve Pdp.compute
    decide verdict Pdp.decision_hash Pdp.decision_payload Pdp.decision_cache_key Pdp.key_payload
    defaults dcs_enabled Runtime.new Runtime.normalize_mode Runtime.normalize_level to_lower
    trim_space Strings.trim_left Strings.trim_right Strings.lower_char lookup insert
update_refused_lem = refl

update_not_permitted : ¬ Permits defaults.pdp "film.update_time" "developer"
unfolding allow_without_dcs defaults
update_not_permitted p = cc (allow_of_permits defaults.pdp "film.update_time" "developer" p)

update_time_refused_example :
    FilmService.update_time film_service (someone "developer") request (bytes "7") (pos 12) system
    ≡ (
      err forbidden,
      write_audit_log film_service.logs
          (FilmService.update_log film_service
            (someone "developer")
            request
            (bytes "7")
            "deny"
            "write_forbidden")
          (record system {
            world =
                (decide_on parts
                  (update_request film_service (someone "developer") request (bytes "7"))
                  start).1;
          }),
    )
update_time_refused_example =
    update_time_refused film_service (someone "developer") request (bytes "7") (pos 12) system
      refused digests-NoCollision start-CacheIsSound update_refused_lem update_not_permitted

-- A developer lists the films.
-- A developer reads a hall.
abbrev hall : HallReadInput
hall = record {
  hall_id = bytes "h";
  name = bytes "One";
  owner_user_id = bytes "0123456789";
  current_film_id = bytes "77";
}
