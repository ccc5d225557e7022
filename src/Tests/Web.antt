-- ===== src/Tests/Web.antt =====
-- Requests against a small server.
use poc_dcs.Common.{
  inl, String, Text, bytes, pos, ◌*◌, ◌≡◌, refl, arith, none, some, [], ◌∷◌, All, string_eq,
  text_eq, ◌==◌, if◌then◌else◌, lookup, insert,
}
use poc_dcs.Config.{defaults}
use poc_dcs.Runtime
use poc_dcs.Cache.Ttl
use poc_dcs.Enforcer
use poc_dcs.Pdp
use poc_dcs.Pip
use poc_dcs.World
use poc_dcs.Pep.Film
use poc_dcs.Repo.Films
use poc_dcs.Strconv
use poc_dcs.Service.Films as FilmService
use poc_dcs.Http.Exchange
use poc_dcs.Strings
use poc_dcs.Strings.{to_lower, trim_space}
use poc_dcs.Strconv.{atoi}
use poc_dcs.Kms
use poc_dcs.Pdp.Allows.{Permits}
use poc_dcs.Enforcer.Authorize.{IsSound}
use poc_dcs.Repo.Halls.{new_hall_repository, Hall}
use poc_dcs.Service.System.{System}
use poc_dcs.Service.Spectators.{Cinema, SpectatorService, in_memory}
use poc_dcs.Http.Exchange.{Request, Response, Handler, principal_from_request}
use poc_dcs.Http.Server.{Server, Decoders}
use poc_dcs.Http.Middleware.{bearer_token, split_at_space}
use poc_dcs.Http.Middleware.Gates.{IsAdmin, IsTurnedAway}
use poc_dcs.Http.Films.{trim, handle_create_film, caller}
use poc_dcs.Http.Films.Answers.{IsAcceptable, handle_create_film_permitted}
use poc_dcs.Http.Routes.{Route, admin_routes}
use poc_dcs.Http.Routes.Admin.{admin_routes_guarded}
use poc_dcs.Environment.{parse_duration_seconds}
use poc_dcs.Environment.Durations.{parse_duration_seconds_exact}
use poc_dcs.Bootstrap.Memory.{cinema_films, cinema_halls, silent}
use poc_dcs.Tests.Digest.{digests-NoCollision}
use poc_dcs.Tests.Fixtures.{parts, start, stored, start-CacheIsSound, logs}
use poc_dcs.Tests.Tokens.{library, service as jwt}

abbrev pub hall : Hall
hall = record {
  tenant_id = "acme";
  id = bytes "h-1";
  name = bytes "One";
  owner_user_id = bytes "u-9";
  current_film_id = bytes "f-1";
}

abbrev pub spectator_service : SpectatorService Cinema
spectator_service = in_memory parts logs (λ n. n ∷ [])

abbrev decoders : Decoders
decoders = record {
  film = λ body. some (record { title = body; time_elapsed = pos 90 });
  hall = λ body. none;
  spectator = λ body. none;
  login = λ body. none;
  settings = λ body. some (record { dcs_mode = some "OFF"; cache_level = some (pos 3) });
}

abbrev server : Server Cinema
server = record {
  env = "test";
  perf_source = "go";
  decoders = decoders;
  library = library;
  jwt = jwt;
  clock = λ w. 150;
  films = record {
    repo = cinema_films;
    enforcer = parts;
    logs = silent;
    map_order = λ fields. fields;
  };
  halls = record { repo = cinema_halls; enforcer = parts; logs = silent; new_uuid = λ n. n ∷ [] };
  spectators = spectator_service;
  auth = none;
  audit = none;
  perf = none;
}

abbrev pub system : System Cinema
system = record {
  world = start;
  store = record { films = stored ∷ []; halls = new_hall_repository (hall ∷ []); spectators = [] };
  trail = [];
  measures = [];
}

-- A request with a role in a header, and no token.
abbrev request : String → String → Text → Request
request method role body = record {
  method = method;
  path = bytes "/films";
  header = λ key. if key == "X-Role" then role else "";
  query = λ key. if key == "limit" then " 25 " else "";
  body = body;
  remote_addr = "10.0.0.1";
}

no-IsAdmin : ¬ IsAdmin server (request "GET" "admin" []) system
unfolding bearer_token split_at_space
no-IsAdmin admin = cc (admin.bearer)

admin_routes_guarded_example :
    All
      (λ (route : Route Cinema).
        IsTurnedAway server (route.1 none (request "GET" "admin" []) system) system)
      (admin_routes server)
admin_routes_guarded_example =
    admin_routes_guarded server none (request "GET" "admin" []) system no-IsAdmin

-- The same with the DCS and the caches off.
abbrev pub uncached : System Cinema
uncached = record system {
  world = record start { settings = record { dcs_mode = "off"; cache_level = pos 0 } };
}

pub uncached-IsSound : IsSound parts uncached.world
uncached-IsSound = record { computed = start-CacheIsSound.computed }

answered :
    (handle_create_film server none (request "POST" "admin" (bytes "Heat")) uncached).0.code ≡ 200
unfolding handle_create_film FilmService.create Enforcer.enforce_film_create Pip.build
    Runtime.dcs_enabled Runtime.new to_lower trim_space World.level_enabled World.classification_get
    Ttl.get lookup World.new_manager Ttl.new Pip.static_store Pdp.evaluate World.classification_set
    World.pdp_get Ttl.evict Ttl.key_at Ttl.make_room Ttl.set insert Enforcer.apply_film
    Enforcer.decide_on Enforcer.enforce_film_read Enforcer.evaluate Enforcer.pdp_decision
    principal_from_request Exchange.read_header_or_default Exchange.request_context_from_request
    trim Kms.trim_left Kms.trim_right Pdp.action_for_classification Pdp.allow_without_dcs
    Pdp.build_actions Pdp.compute Pdp.decide Pdp.decision_cache_key Pdp.decision_hash
    Pdp.decision_payload Pdp.evaluate_cached Pdp.field_actions Pdp.harden Pdp.harden_field
    Pdp.key_payload Pdp.parse_field_action Pdp.resolve Pdp.verdict Film.apply Film.apply_time
    Film.apply_title Pip.build_fields Pip.cached_or_query Pip.complete_context
    Pip.get_classification_map Pip.query Runtime.normalize_level Runtime.normalize_mode atoi
    Strconv.itoa Strings.lower_char Strings.trim_left Strings.trim_right World.pdp_set
    Kms.local_client Kms.local_encrypt Kms.local_decrypt defaults Films.create
answered = refl

handle_create_film_permitted_example :
    IsAcceptable server (request "POST" "admin" (bytes "Heat"))
    × Permits defaults.pdp "film.create"
        (caller server none (request "POST" "admin" (bytes "Heat"))).role
handle_create_film_permitted_example =
    handle_create_film_permitted server none (request "POST" "admin" (bytes "Heat")) uncached
      digests-NoCollision uncached-IsSound answered

sixty : atoi (bytes (trim_space " 60 ")) ≡ some (pos 60)
unfolding trim_space atoi
sixty = refl

parse_duration_seconds_exact_example : parse_duration_seconds " 60 " 300 ≡ pos (60 * 1_000_000_000)
parse_duration_seconds_exact_example =
    parse_duration_seconds_exact " 60 " 300 60 (inl (sixty, omega arith)) (omega arith)
