-- ===== src/Bootstrap/Database.antt =====
-- `setupRepositories` and `setupServices` of internal/bootstrap/http.go for a process with a database,
-- and `New` of internal/server/server.go, which chooses between it and the process in memory.
use poc_dcs.Common.{Text, Bool, true, some}
use poc_dcs.World.{World}
use poc_dcs.Environment.{Config}
use poc_dcs.Auth.Login.{AuthService}
use poc_dcs.Service.System.{Logging, Timings}
use poc_dcs.Service.Films.{FilmService}
use poc_dcs.Service.Halls.{HallService}
use poc_dcs.Service.Spectators.{SpectatorService}
use poc_dcs.Service.Logs.{AuditService, PerfService}
use poc_dcs.Http.Server.{Server}
use poc_dcs.Repo.Postgres.Sql.{Pool, Uuids}
use poc_dcs.Repo.Postgres.Halls.{postgres_halls}
use poc_dcs.Repo.Postgres.Films.{postgres_films}
use poc_dcs.Repo.Postgres.Spectators.{postgres_spectators}
use poc_dcs.Repo.Postgres.PerfLogs.{postgres_perf_logs}
use poc_dcs.Repo.Postgres.AuditLogs.{postgres_audit_logs}
use poc_dcs.Repo.Postgres.Users.{get_by_username}
use poc_dcs.Repo.Postgres.Halls as PostgresHalls
use poc_dcs.Bootstrap.{Outside, setup_dcs}
use poc_dcs.Bootstrap.Memory.{setup_jwt}

-- What a process with a database uses besides: the parsing of UUIDs, the measured times, and the
-- comparison of bcrypt.
pub record Drivers : Type 0 where
  pub uuids : Uuids
  pub timings : World → Timings
  pub compare : Text → Text → Bool

module _ (o : Outside) (cfg : Config) (r : Drivers) {D : Type 0} (pool : Pool D) where
  -- There is a writer of each log.
  abbrev logging : Logging
  logging = record { audited = true; measured = true; timings = r.timings }

  abbrev pub audit_service : AuditService D
  audit_service = record {
    repo = some (postgres_audit_logs r.uuids pool);
    enforcer = some (setup_dcs o cfg);
  }

  abbrev pub perf_service : PerfService D
  perf_service = record {
    repo = some (postgres_perf_logs r.uuids pool);
    enforcer = some (setup_dcs o cfg);
    source = cfg.perf_source;
  }

  abbrev pub film_service : FilmService D
  film_service = record {
    repo = postgres_films r.uuids pool;
    enforcer = setup_dcs o cfg;
    logs = logging;
    map_order = o.map_order;
  }

  abbrev pub hall_service : HallService D
  hall_service = record {
    repo = postgres_halls r.uuids pool;
    enforcer = setup_dcs o cfg;
    logs = logging;
    new_uuid = o.new_uuid;
  }

  abbrev pub spectator_service : SpectatorService D
  spectator_service = record {
    repo = postgres_spectators r.uuids pool;
    find_hall = PostgresHalls.find_by_id r.uuids pool;
    enforcer = setup_dcs o cfg;
    logs = logging;
    new_uuid = o.new_uuid;
  }

  -- A login reads the users as the database has them when it is asked.
  abbrev pub auth_service : D → AuthService
  auth_service d = record {
    get_by_username = λ tenant username. (get_by_username r.uuids pool tenant username d).0;
    compare = r.compare;
    library = o.library;
    jwt = setup_jwt o cfg;
  }

  unfoldable pub setup_database_services : D → Server D
  setup_database_services d = record {
    env = cfg.env;
    perf_source = cfg.perf_source;
    decoders = o.decoders;
    library = o.library;
    jwt = setup_jwt o cfg;
    clock = o.clock;
    films = film_service;
    halls = hall_service;
    spectators = spectator_service;
    auth = some (auth_service d);
    audit = some audit_service;
    perf = some perf_service;
  }
