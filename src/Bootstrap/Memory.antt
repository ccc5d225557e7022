-- ===== src/Bootstrap/Memory.antt =====
-- `setupRepositories` and `setupServices` of internal/bootstrap/http.go for a process without a
-- database: there are no logs and no logins.
use poc_dcs.Common.{ℕ, zero, ℤ, pos, negsuc, false, none, []}
use poc_dcs.Action.{Act}
use poc_dcs.World.{World}
use poc_dcs.Environment.{Config}
use poc_dcs.Auth.Jwt.{JwtService, new_jwt_service}
use poc_dcs.Repo.Films
use poc_dcs.Repo.Halls
use poc_dcs.Service.System.{System, Logging}
use poc_dcs.Service.Films.{FilmRepository, FilmService, memory_repository}
use poc_dcs.Service.Halls.{HallRepository, HallService, memory_halls}
use poc_dcs.Service.Spectators.{Cinema, in_memory}
use poc_dcs.Http.Server.{Server}
use poc_dcs.Bootstrap.{Outside, setup_dcs, setup_kms, setup_world, seed_films, seed_halls}

abbrev pub on_films : {A : Type 0} → Act Films.Films A → Act Cinema A
on_films m c = let (r, films) = m c.films in (r, record c { films = films })

abbrev pub on_halls : {A : Type 0} → Act Halls.HallRepository A → Act Cinema A
on_halls m c = let (r, halls) = m c.halls in (r, record c { halls = halls })

abbrev pub cinema_films : FilmRepository Cinema
cinema_films = record {
  list_by_tenant = λ tenant. on_films (memory_repository.list_by_tenant tenant);
  update_time_ciphertext =
      λ tenant id ct. on_films (memory_repository.update_time_ciphertext tenant id ct);
  create = λ tenant title ct. on_films (memory_repository.create tenant title ct);
}

abbrev pub cinema_halls : HallRepository Cinema
cinema_halls = record {
  list_by_tenant = λ tenant. on_halls (memory_halls.list_by_tenant tenant);
  create = λ hall. on_halls (memory_halls.create hall);
  count_spectators = λ tenant id. on_halls (memory_halls.count_spectators tenant id);
  find_by_id = λ tenant id. on_halls (memory_halls.find_by_id tenant id);
}

-- A service without a writer of logs writes none: a nil pointer in the interface of the audit writer is
-- not nil, and its method returns at once.
abbrev pub silent : Logging
silent = record {
  audited = false;
  measured = false;
  timings = λ w. record { total_ms = 0; pip_ms = none; pdp_ms = none; kms_ms = none; db_ms = none };
}

-- A lifetime in minutes; the constructor is not given a negative one.
abbrev pub minutes : ℤ → ℕ
minutes (pos n) = n
minutes (negsuc n) = zero

module _ (o : Outside) (cfg : Config) where
  abbrev pub setup_repositories : World → Cinema
  setup_repositories w = record {
    films = seed_films (setup_kms o cfg) w;
    halls = seed_halls;
    spectators = [];
  }

  abbrev pub setup_jwt : JwtService
  setup_jwt =
      new_jwt_service cfg.jwt_secret cfg.jwt_issuer cfg.jwt_audience (minutes cfg.jwt_ttl_min)

  abbrev pub film_service : FilmService Cinema
  film_service = record {
    repo = cinema_films;
    enforcer = setup_dcs o cfg;
    logs = silent;
    map_order = o.map_order;
  }

  abbrev pub hall_service : HallService Cinema
  hall_service = record {
    repo = cinema_halls;
    enforcer = setup_dcs o cfg;
    logs = silent;
    new_uuid = o.new_uuid;
  }

  -- The server of such a process.
  unfoldable pub setup_services : Server Cinema
  setup_services = record {
    env = cfg.env;
    perf_source = cfg.perf_source;
    decoders = o.decoders;
    library = o.library;
    jwt = setup_jwt;
    clock = o.clock;
    films = film_service;
    halls = hall_service;
    spectators = in_memory (setup_dcs o cfg) silent o.new_uuid;
    auth = none;
    audit = none;
    perf = none;
  }

  abbrev pub setup_system : System Cinema
  setup_system = record {
    world = setup_world o cfg;
    store = setup_repositories (setup_world o cfg);
    trail = [];
    measures = [];
  }
