-- ===== src/Tests/Workflows.antt =====
-- Halls, spectators and the logs of a small deployment, and how it starts.
use poc_dcs.Common.{
  true, bytes, pos, ◌≡◌, ◌⊎◌, refl, none, some, List, [], ◌∷◌, ok, string_eq, text_eq, lookup,
  insert,
}
use poc_dcs.Config.{defaults}
use poc_dcs.Runtime
use poc_dcs.Enforcer
use poc_dcs.Enforcer.{Parts}
use poc_dcs.Enforcer.Authorize.{IsSound}
use poc_dcs.Pdp
use poc_dcs.Pdp.{allow_without_dcs}
use poc_dcs.Pdp.Allows.{Permits, permits_of_allow}
use poc_dcs.Pip
use poc_dcs.World
use poc_dcs.World.{World, clear_all}
use poc_dcs.Kms.{normalize_external_id, local_client}
use poc_dcs.Pep.Payload.{null, text}
use poc_dcs.Pep.Spectator
use poc_dcs.Repo.Halls
use poc_dcs.Repo.Spectators as Registry
use poc_dcs.Service.System.{System}
use poc_dcs.Service.Halls as HallsOf
use poc_dcs.Service.Halls.Guarded.{create_hall_guarded}
use poc_dcs.Service.Halls.Succeeding.{IsCreated, create_hall_succeeds}
use poc_dcs.Enforcer.Answering.{static_store-IsTotal}
use poc_dcs.Service.Spectators as Visitors
use poc_dcs.Service.Spectators.{Cinema, SpectatorOutput, SpectatorCreateInput}
use poc_dcs.Service.Spectators.Creating.{stored_in, IsAdded, create_searchable}
use poc_dcs.Service.Spectators.Searching.{IsFound, search-IsFound}
use poc_dcs.Service.Logs as LogsOf
use poc_dcs.Service.Logs.Guarded.{IsListed, list_perfs_guarded}
use poc_dcs.Environment.{Config, load}
use poc_dcs.Tests.Tokens.{library}
use poc_dcs.Bootstrap.{Outside, setup_dcs, setup_world}
use poc_dcs.Bootstrap.Start.{Reaches, Step, started-IsSound}
use poc_dcs.Bootstrap.Memory.{cinema_halls}
use poc_dcs.Tests.Digest.{digests, digests-NoCollision}
use poc_dcs.Tests.Fixtures.{parts, someone, request, logs, oracle, base64, start-CacheIsSound}
use poc_dcs.Tests.Web.{system, uncached, uncached-IsSound, spectator_service}

-- Halls
abbrev halls : HallsOf.HallService Cinema
halls = record { repo = cinema_halls; enforcer = parts; logs = logs; new_uuid = λ n. n ∷ [] }

abbrev new_hall : HallsOf.HallCreateInput
new_hall = record { name = bytes "Two"; owner_user_id = bytes "u-9"; current_film_id = bytes "f-1" }

create_hall_guarded_example :
    Permits defaults.pdp "hall.create" "developer"
    ⊎ ((HallsOf.create_hall halls (someone "developer") request new_hall system).1.store
        ≡ system.store)
create_hall_guarded_example =
    create_hall_guarded halls (someone "developer") request new_hall system digests-NoCollision
      start-CacheIsSound

admin_creates : allow_without_dcs defaults.pdp "hall.create" "admin" ≡ true
unfolding allow_without_dcs defaults
admin_creates = refl

create_hall_succeeds_example : IsCreated halls (someone "admin") request new_hall uncached
create_hall_succeeds_example =
    create_hall_succeeds halls (someone "admin") request new_hall uncached digests-NoCollision
      uncached-IsSound (static_store-IsTotal _) (λ hall r. refl)
      (permits_of_allow defaults.pdp "hall.create" "admin" admin_creates)

-- Spectators
abbrev newcomer : SpectatorCreateInput
newcomer = record {
  hall_id = bytes "h-1";
  name = bytes "Bob";
  age = pos 30;
  external_id = bytes "ab";
}

abbrev shown : SpectatorOutput
shown = record {
  id = text (0 ∷ []);
  hall_id = bytes "h-1";
  name = null;
  age = null;
  external_id = null;
}

created :
    (Visitors.create spectator_service (someone "admin") request newcomer uncached).0 ≡ ok shown
unfolding Visitors.create Halls.find_by_id Enforcer.enforce_spectator_create Pip.build
    Runtime.dcs_enabled Pdp.evaluate World.level_enabled Pdp.compute defaults local_client
    Enforcer.enforce_spectator_read Spectator.apply lookup Visitors.shown_id insert
created = refl

one_pepper :
    (w : World) → (parts.kms.get_pepper "pepper" w).0 ≡ ok (bytes "local-dev-pepper-not-secure")
unfolding local_client
one_pepper w = refl

create_searchable_example :
    Permits defaults.pdp "spectator.create" "admin"
    × (h : Halls.Hall) × (Halls.find_by_id "acme" (bytes "h-1") uncached.store.halls ≡ some h)
    × IsAdded "acme"
        (normalize_external_id (bytes "ab"))
        (bytes "h-1")
        (stored_in parts logs (λ n. n ∷ []) (someone "admin") request uncached)
        (stored_in parts logs
          (λ n. n ∷ [])
          (someone "admin")
          request
          (Visitors.create spectator_service (someone "admin") request newcomer uncached).1)
create_searchable_example =
    create_searchable parts logs (λ n. n ∷ []) (someone "admin") request newcomer uncached shown
      (bytes "ab") (bytes "local-dev-pepper-not-secure") digests-NoCollision uncached-IsSound
      one_pepper refl created

abbrev visitor : Registry.Spectator
visitor = record {
  tenant_id = "acme";
  id = bytes "s-1";
  hall_id = bytes "h-1";
  name_ct = bytes "vault:v1:Bob";
  age_ct = bytes "vault:v1:30";
  external_id_ct = bytes "vault:v1:ab";
  external_id_lookup = bytes "AB";
}

abbrev visited : System Cinema
visited = record uncached { store = record uncached.store { spectators = visitor ∷ [] } }

abbrev found : List SpectatorOutput
found = record shown { id = text (bytes "s-1") } ∷ []

searched :
    (Visitors.search spectator_service (someone "admin") request (bytes " ab") visited).0 ≡ ok found
unfolding Visitors.search Enforcer.evaluate_spectator_search Pip.build Runtime.dcs_enabled
    Pdp.evaluate World.level_enabled Pdp.compute defaults local_client
    Registry.find_by_external_id_lookup normalize_external_id Enforcer.enforce_spectator_read
    Spectator.apply lookup insert
searched = refl

search-IsFound_example :
    Permits defaults.pdp "search.spectator" "admin"
    × IsFound spectator_service (someone "admin") request (bytes " ab") visited.store found
search-IsFound_example =
    search-IsFound spectator_service (someone "admin") request (bytes " ab") visited found
      digests-NoCollision uncached-IsSound searched

-- The start
abbrev outside : Outside
outside = record {
  map_order = λ keys. keys;
  new_uuid = λ n. n ∷ [];
  decoders = record {
    film = λ body. none;
    hall = λ body. none;
    spectator = λ body. none;
    login = λ body. none;
    settings = λ body. none;
  };
  library = library;
  clock = λ w. 0;
  oracle = oracle;
  digests = digests;
  hmac = λ key message. message;
  visit = λ w fields. fields;
  base64 = base64;
  vault = λ cfg. none;
  load = λ path. none;
  classifications = none;
}

abbrev configured : Config
configured = load (λ key. "")

abbrev asked : Pip.Input
asked = Enforcer.asking (someone "admin") request "film.read" "film" (bytes "7") [] []

abbrev decided : World
decided =
    (Enforcer.decide_on (setup_dcs outside configured) asked (setup_world outside configured)).1

abbrev switched : World
switched = record decided {
  settings = Runtime.set decided.settings (some "off") none;
  caches = clear_all decided.caches;
}

started-IsSound_example : IsSound (setup_dcs outside configured) switched
started-IsSound_example = started-IsSound outside configured switched (
    Reaches.then (Reaches.then Reaches.here (Step.decides asked refl))
      (Step.changes (some "off") none refl))

-- Logs
abbrev perf_service : LogsOf.PerfService Cinema
perf_service = record {
  repo = some (record {
    create = λ log c. (ok tt, c);
    list = λ tenant limit action source c. (ok [], c);
    summary = λ tenant action level all source c. (ok [], c);
  });
  enforcer = some parts;
  source = "go";
}

listed :
    (LogsOf.list_perfs perf_service (someone "admin") request (pos 0) none none uncached).0 ≡ ok []
unfolding LogsOf.list_perfs Enforcer.evaluate_perf_read Pip.build Runtime.dcs_enabled Pdp.evaluate
    World.level_enabled Pdp.compute defaults
listed = refl

list_perfs_guarded_example :
    Permits defaults.pdp "perf.read" "admin"
    × IsListed perf_service "acme" (pos 0) none none uncached.store []
list_perfs_guarded_example =
    list_perfs_guarded perf_service (someone "admin") request parts (pos 0) none none uncached []
      refl digests-NoCollision uncached-IsSound listed
