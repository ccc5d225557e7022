-- ===== src/Tests/Engine/Witnesses.antt =====
-- The repositories over the database.
use poc_dcs.Common.{
  Result, ap, bytes, pos, ◌≡◌, ◌≢◌, ◌≤◌, refl, none, some, List, [], ◌∷◌, ◌++◌, ok, In, length,
  false, string_eq, lookup, insert,
}
use poc_dcs.Repo.Films.{FilmRecord}
use poc_dcs.Repo.Spectators.{Spectator}
use poc_dcs.Repo.Postgres.Sql.{
  Datum, name, blob, as_timestamp, as_name, as_uuid_name, as_optional_name, as_boolean, as_int,
  as_float, as_optional_float, as_id, as_text, as_blob, as_uuid, as_labels, set_uuid,
}
use poc_dcs.Repo.Postgres.Meaning.{Row, cell, project}
use poc_dcs.Strings.{trim_space}
use poc_dcs.Repo.Postgres.Sql.{scan_rows}
use poc_dcs.Repo.Postgres.Scan.{
  scan_spectator, scan_perf_log, scan_audit_log, scan_film, scan_film_row,
}
use poc_dcs.Repo.Postgres.Halls.{postgres_halls}
use poc_dcs.Repo.Postgres.Halls.Holding as Holding
use poc_dcs.Repo.Postgres.Halls.Meets.{postgres_halls-IsHallStore}
use poc_dcs.Repo.Postgres.PerfLogs as PerfLogs
use poc_dcs.Repo.Postgres.PerfLogs.{perf_items}
use poc_dcs.Repo.Postgres.PerfLogs.Filtered.{IsAsked, list-IsAsked}
use poc_dcs.Repo.Postgres.PerfLogs.Recorded as RecordedPerf
use poc_dcs.Repo.Postgres.AuditLogs as AuditLogs
use poc_dcs.Repo.Postgres.AuditLogs.Recorded as RecordedAudit
use poc_dcs.Repo.Postgres.Films as Films
use poc_dcs.Repo.Postgres.Films.Unreadable.{created_unreadable}
use poc_dcs.Repo.Postgres.Spectators as Spectators
use poc_dcs.Repo.Postgres.Spectators.Finding.{IsKept, create_then_find}
use poc_dcs.Service.System.{AuditLog, PerfLog}
use poc_dcs.Service.Halls.Contract.{IsHallStore}
use poc_dcs.Tests.Engine.{
  Database, engine, table, uuids, uuids-IsUuid, row_of, value_of, chosen, selected, limited, up_to,
  take, if_yes,
}
use poc_dcs.Tests.Engine.Laws.{engine-IsPostgres}
use poc_dcs.Tests.Engine.Runs.{exec_done, insert_row_done, one_chosen}

postgres_halls-IsHallStore_example :
    IsHallStore (postgres_halls uuids engine) (Holding.Holds uuids table) (Holding.Kept uuids)
postgres_halls-IsHallStore_example =
    postgres_halls-IsHallStore uuids engine table uuids-IsUuid engine-IsPostgres

abbrev measured : PerfLog
measured = record {
  request_id = "r-1";
  tenant_id = "acme";
  subject_user_id = "";
  subject_role = "admin";
  source = " ";
  action = "film.read";
  resource_type = "film";
  dcs_enabled = false;
  cache_level = pos 1;
  timings = record { total_ms = 3; pip_ms = none; pdp_ms = some 1; kms_ms = none; db_ms = none };
}

perf_written : (PerfLogs.create uuids engine measured []).0 ≡ ok tt
unfolding PerfLogs.create engine cell row_of value_of
perf_written =
    ap (λ (o : Result (Unit {0}) × Database). o.0)
      (exec_done PerfLogs.insert_perf_log (PerfLogs.perf_args uuids 0 measured) [] (
        refl,
        (
          refl,
          (
            refl,
            (
              refl,
              (
                refl,
                (refl, (refl, (refl, (refl, (refl, (refl, (refl, (refl, (refl, (refl, tt)))))))))),
              ),
            ),
          ),
        ),
      ))

create-recorded_example :
    (row : Row) × In row (table (PerfLogs.create uuids engine measured []).1 "perf_logs")
    × (scan_perf_log uuids (project perf_items row) ≡ ok (RecordedPerf.recorded uuids measured))
create-recorded_example =
    RecordedPerf.create-recorded uuids engine table engine-IsPostgres measured [] perf_written

abbrev stored_perf : Row
stored_perf =
    row_of (PerfLogs.perf_args uuids 0 measured) PerfLogs.insert_perf_log.columns
      PerfLogs.insert_perf_log.values

abbrev measures : Database
measures = ("perf_logs", stored_perf ∷ []) ∷ []

-- The filter by an action with blanks around it, and by the source that stands for none.
abbrev read_filter : PerfLogs.Filter
read_filter = PerfLogs.list_filter "acme" (some " film.read") (some "unknown")

abbrev read_args : List Datum
read_args = read_filter.args ++ (Datum.int (pos 2) ∷ [])

perf_chosen : chosen read_args read_filter.tests (stored_perf ∷ []) ≡ stored_perf ∷ []
unfolding PerfLogs.list_filter cell row_of value_of trim_space PerfLogs.nullable_string
perf_chosen = one_chosen read_args read_filter.tests stored_perf (refl, (refl, (refl, tt)))

perf_listed :
    (PerfLogs.list uuids engine "acme" (pos 2) (some " film.read") (some "unknown") measures).0
    ≡ ok (RecordedPerf.recorded uuids measured ∷ [])
unfolding PerfLogs.list PerfLogs.limit_or_default engine selected limited up_to take table scan_rows
    scan_perf_log cell row_of value_of trim_space lookup as_timestamp as_name as_uuid_name
    PerfLogs.nullable_uuid as_optional_name PerfLogs.nullable_string as_boolean as_int as_float
    as_optional_float
perf_listed = rw perf_chosen refl

list-IsAsked_example :
    ((log : PerfLog)
      → In log (RecordedPerf.recorded uuids measured ∷ [])
      → IsAsked "acme" (some " film.read") (some "unknown") log)
    × (length (RecordedPerf.recorded uuids measured ∷ []) ≤ 2)
unfolding PerfLogs.limit_or_default
list-IsAsked_example =
    list-IsAsked uuids engine table engine-IsPostgres "acme" (pos 2) (some " film.read")
      (some "unknown") measures (RecordedPerf.recorded uuids measured ∷ []) perf_listed

abbrev entry : AuditLog
entry = record {
  request_id = "r-1";
  tenant_id = "acme";
  subject_user_id = "u-admin";
  subject_role = "admin";
  action = "film.create";
  resource_type = "film";
  resource_id = bytes "f-1";
  outcome = "allow";
  decision_hash = "";
  fields_decrypted = "title" ∷ [];
  fields_masked = [];
  fields_denied = [];
  details = [];
}

audit_written : (AuditLogs.create uuids engine entry []).0 ≡ ok tt
unfolding AuditLogs.create AuditLogs.scan_id engine cell row_of value_of
audit_written =
    rw
      (insert_row_done AuditLogs.insert_audit_log (AuditLogs.audit_args uuids 0 entry) [] (
        refl,
        (
          refl,
          (
            refl,
            (
              refl,
              (refl, (refl, (refl, (refl, (refl, (refl, (refl, (refl, (refl, (refl, tt)))))))))),
            ),
          ),
        ),
      ))
      refl

audit-recorded_example :
    (row : Row) × In row (table (AuditLogs.create uuids engine entry []).1 "audit_logs")
    × (scan_audit_log uuids (project AuditLogs.select_audit_logs.items row)
        ≡ ok (RecordedAudit.recorded uuids entry))
    × RecordedAudit.ReadBack entry.details (RecordedAudit.recorded uuids entry).details
audit-recorded_example =
    RecordedAudit.audit-recorded uuids engine table engine-IsPostgres entry [] audit_written

film_made :
    (Films.create uuids engine "acme" (bytes "Heat") (bytes "ct") []).0
    ≡ ok (record {
      tenant_id = "acme";
      id = uuids.print [];
      title = bytes "Heat";
      time_elapsed_ct = bytes "ct";
    })
unfolding Films.create scan_film engine cell row_of value_of as_id as_name as_text
film_made =
    rw
      (insert_row_done Films.insert_film (Films.film_args "acme" (bytes "Heat") (bytes "ct")) []
        (tt, (refl, (refl, (refl, (refl, (tt, tt)))))))
      refl

created_unreadable_example :
    (row : Row) × In row
      (table (Films.create uuids engine "acme" (bytes "Heat") (bytes "ct") []).1 "films")
    × (scan_film uuids (project Films.film_items row)
        ≡ ok (record {
          tenant_id = "acme";
          id = uuids.print [];
          title = bytes "Heat";
          time_elapsed_ct = bytes "ct";
        }))
    × ((read : FilmRecord) → scan_film_row uuids (project Films.film_of_id.items row) ≢ ok read)
created_unreadable_example =
    created_unreadable uuids engine table engine-IsPostgres "acme" (bytes "Heat") (bytes "ct") [] _
      film_made

abbrev visitor : Spectator
visitor = record {
  tenant_id = "acme";
  id = bytes "s-1";
  hall_id = bytes "h-1";
  name_ct = bytes "n";
  age_ct = bytes "a";
  external_id_ct = bytes "e";
  external_id_lookup = bytes "l";
}

abbrev visitor_args : List Datum
visitor_args = Spectators.spectator_args visitor (bytes "-1") (bytes "-1") 0

abbrev visited : Database
visited =
    (
      "spectators",
      row_of visitor_args Spectators.insert_spectator.columns Spectators.insert_spectator.values
          ∷ [],
    )
    ∷ []

visitor_stored : Spectators.create uuids engine visitor [] ≡ (ok tt, visited)
unfolding Spectators.create engine cell row_of value_of table lookup insert set_uuid if_yes
visitor_stored =
    exec_done Spectators.insert_spectator visitor_args []
      (refl, (refl, (refl, (refl, (refl, (refl, (refl, (refl, (refl, tt)))))))))

visitor_chosen :
    chosen (name "acme" ∷ blob (bytes "l") ∷ []) Spectators.spectators_of_lookup.tests (
      row_of visitor_args Spectators.insert_spectator.columns Spectators.insert_spectator.values
      ∷ [])
    ≡ row_of visitor_args Spectators.insert_spectator.columns Spectators.insert_spectator.values
      ∷ []
unfolding cell row_of value_of
visitor_chosen =
    one_chosen (name "acme" ∷ blob (bytes "l") ∷ []) Spectators.spectators_of_lookup.tests _
      (refl, (refl, tt))

abbrev kept_visitor : Spectator
kept_visitor = record visitor { id = bytes "u-1"; hall_id = bytes "u-1" }

visitor_found :
    (Spectators.find_by_external_id_lookup uuids engine "acme" (bytes "l") visited).0
    ≡ ok (kept_visitor ∷ [])
unfolding Spectators.find_by_external_id_lookup engine selected limited table scan_rows
    scan_spectator cell row_of value_of lookup as_name as_text as_blob as_uuid as_labels
    as_timestamp
visitor_found = rw visitor_chosen refl

create_then_find_example :
    ((kept : Spectator) × In kept (kept_visitor ∷ []) × IsKept uuids visitor kept)
    × ((s : Spectator)
        → In s (kept_visitor ∷ [])
        → (s.tenant_id ≡ "acme") × (s.external_id_lookup ≡ bytes "l"))
create_then_find_example =
    create_then_find uuids engine table engine-IsPostgres visitor [] (kept_visitor ∷ [])
      (ap (λ (o : Result (Unit {0}) × Database). o.0) visitor_stored)
      (rw visitor_stored visitor_found)
