-- ===== src/Repo/Postgres/AuditLogs.antt =====
-- internal/repository/postgres/audit_repository.go. The writers of an entry leave its time zero; a nil
-- list of fields is the empty list, and nil details are the empty object.
pub mod Recorded
use poc_dcs.Common.{
  String, Text, text_eq, ◌==◌, if◌then◌else◌, ℕ, ℤ, some, List, [], ◌∷◌, Result, err,
}
use poc_dcs.Action.{Act, ◌>>=◌, map_result}
use poc_dcs.Kms.{trim_left}
use poc_dcs.Repo.Postgres.Sql.{
  Datum, null, name, names, int, object, timestamp, Item, column, Select, Insert, equals, Order,
  desc, param, Pool, Uuids, lift, as_int, scan_rows, scan_error, uuid_or_null,
}
use poc_dcs.Repo.Postgres.Scan.{scan_audit_log}
use poc_dcs.Repo.Postgres.PerfLogs.{nullable_string, nullable_uuid, limit_or_default}
use poc_dcs.Service.System.{AuditLog}
use poc_dcs.Service.Logs.{AuditLogRepository}

abbrev pub insert_audit_log : Insert
insert_audit_log = record {
  table = "audit_logs";
  columns =
      "ts" ∷ "request_id" ∷ "tenant_id" ∷ "subject_user_id" ∷ "subject_role" ∷ "action"
      ∷ "resource_type" ∷ "resource_id" ∷ "outcome" ∷ "decision_hash" ∷ "fields_decrypted"
      ∷ "fields_masked" ∷ "fields_denied" ∷ "details" ∷ [];
  values =
      param 1
      ∷ param 2
      ∷ param 3
      ∷ param 4
      ∷ param 5
      ∷ param 6
      ∷ param 7
      ∷ param 8
      ∷ param 9
      ∷ param 10
      ∷ param 11
      ∷ param 12
      ∷ param 13
      ∷ param 14
      ∷ [];
  returning = column "id" ∷ [];
}

-- nullableUUID of an identifier that is kept as bytes.
unfoldable pub nullable_uuid_text : Uuids → Text → Datum
unfolding trim_left uuid_or_null
nullable_uuid_text u value = if trim_left value == [] then null else uuid_or_null u value

abbrev pub audit_args : Uuids → ℕ → AuditLog → List Datum
audit_args u now log =
    timestamp now
    ∷ name log.request_id
    ∷ name log.tenant_id
    ∷ nullable_uuid u log.subject_user_id
    ∷ nullable_string log.subject_role
    ∷ name log.action
    ∷ name log.resource_type
    ∷ nullable_uuid_text u log.resource_id
    ∷ name log.outcome
    ∷ nullable_string log.decision_hash
    ∷ names log.fields_decrypted
    ∷ names log.fields_masked
    ∷ names log.fields_denied
    ∷ object log.details
    ∷ []

abbrev pub select_audit_logs : Select
select_audit_logs = record {
  items =
      column "id"
      ∷ column "ts"
      ∷ column "request_id"
      ∷ column "tenant_id"
      ∷ column "subject_user_id"
      ∷ column "subject_role"
      ∷ column "action"
      ∷ column "resource_type"
      ∷ column "resource_id"
      ∷ column "outcome"
      ∷ column "decision_hash"
      ∷ column "fields_decrypted"
      ∷ column "fields_masked"
      ∷ column "fields_denied"
      ∷ column "details"
      ∷ [];
  table = "audit_logs";
  tests = equals "tenant_id" 1 ∷ [];
  order = desc "ts" ∷ [];
  limit = some 2;
}

-- `Scan(&log.ID)`; the entry is not used any more.
unfoldable pub scan_id : List Datum → Result (Unit {0})
unfolding as_int
scan_id (id ∷ []) = map_result (λ n. tt) (as_int id)
scan_id _ = err scan_error

module _ (u : Uuids) {D : Type 0} (pool : Pool D) where
  unfoldable pub create : AuditLog → Act D (Unit {0})
  unfolding nullable_uuid nullable_uuid_text nullable_string scan_id
  create log = do
    now ← pool.now
    row ← pool.insert_row insert_audit_log (audit_args u now log)
    lift (scan_id row)

  unfoldable pub list : String → ℤ → Act D (List AuditLog)
  unfolding limit_or_default
  list tenant limit = do
    rows ← pool.query select_audit_logs (name tenant ∷ int (limit_or_default limit) ∷ [])
    lift (scan_rows (scan_audit_log u) rows)

  abbrev pub postgres_audit_logs : AuditLogRepository D
  postgres_audit_logs = record { create = create; list = list }
