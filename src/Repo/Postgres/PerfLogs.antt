-- ===== src/Repo/Postgres/PerfLogs.antt =====
-- internal/repository/postgres/perf_repository.go. The writers of a log leave its time zero.
pub mod Filtered
pub mod Recorded
use poc_dcs.Common.{
  String, bytes, ℕ, ◌+◌, zero, ℤ, pos, negsuc, Bool, not, Option, none, some, List, [], ◌∷◌, ◌++◌,
  string_eq, ◌==◌, if◌then◌else◌, length,
}
use poc_dcs.Action.{Act, ◌>>=◌}
use poc_dcs.Strings.{trim_space}
use poc_dcs.Repo.Postgres.Sql.{
  Datum, null, name, int, float, boolean, timestamp, Item, column, coalesce, Test, Select, Group,
  Insert, equals, Order, asc, desc, param, Pool, Uuids, lift, uuid_or_null, scan_rows,
}
use poc_dcs.Repo.Postgres.Scan.{scan_perf_log, scan_perf_summary}
use poc_dcs.Service.System.{PerfLog}
use poc_dcs.Service.Logs.{PerfSummary, PerfLogRepository}

unfoldable pub nullable_string : String → Datum
unfolding trim_space
nullable_string value = if trim_space value == "" then null else name value

unfoldable pub nullable_uuid : Uuids → String → Datum
unfolding trim_space uuid_or_null
nullable_uuid u value = if trim_space value == "" then null else uuid_or_null u (bytes value)

abbrev pub optional_float : Option ℕ → Datum
optional_float none = null
optional_float (some n) = float n

abbrev pub insert_perf_log : Insert
insert_perf_log = record {
  table = "perf_logs";
  columns =
      "ts" ∷ "request_id" ∷ "tenant_id" ∷ "subject_user_id" ∷ "subject_role" ∷ "source" ∷ "action"
      ∷ "resource_type" ∷ "dcs_enabled" ∷ "cache_level" ∷ "total_ms" ∷ "pip_ms" ∷ "pdp_ms"
      ∷ "kms_ms" ∷ "db_ms" ∷ [];
  values =
      param 1
      ∷ param 2
      ∷ param 3
      ∷ param 4
      ∷ param 5
      ∷ param 6
      ∷ param 7
      ∷ param 8
      ∷ param 9
      ∷ param 10
      ∷ param 11
      ∷ param 12
      ∷ param 13
      ∷ param 14
      ∷ param 15
      ∷ [];
  returning = [];
}

abbrev pub perf_args : Uuids → ℕ → PerfLog → List Datum
perf_args u now log =
    timestamp now
    ∷ name log.request_id
    ∷ name log.tenant_id
    ∷ nullable_uuid u log.subject_user_id
    ∷ nullable_string log.subject_role
    ∷ nullable_string log.source
    ∷ name log.action
    ∷ name log.resource_type
    ∷ boolean log.dcs_enabled
    ∷ int log.cache_level
    ∷ float log.timings.total_ms
    ∷ optional_float log.timings.pip_ms
    ∷ optional_float log.timings.pdp_ms
    ∷ optional_float log.timings.kms_ms
    ∷ optional_float log.timings.db_ms
    ∷ []

-- `COALESCE(source, 'unknown')`
abbrev pub source_item : Item
source_item = coalesce "source" (name "unknown")

abbrev pub perf_items : List Item
perf_items =
    column "ts"
    ∷ column "request_id"
    ∷ column "tenant_id"
    ∷ column "subject_user_id"
    ∷ column "subject_role"
    ∷ source_item
    ∷ column "action"
    ∷ column "resource_type"
    ∷ column "dcs_enabled"
    ∷ column "cache_level"
    ∷ coalesce "total_ms" (float 0)
    ∷ column "pip_ms"
    ∷ column "pdp_ms"
    ∷ column "kms_ms"
    ∷ column "db_ms"
    ∷ []

-- The conditions and the arguments so far of a query that is put together.
pub record Filter : Type 0 where
  pub tests : List Test
  pub args : List Datum

abbrev pub of_tenant : String → Filter
of_tenant tenant = record { tests = equals "tenant_id" 1 ∷ []; args = name tenant ∷ [] }

-- `query += " AND item = $" + strconv.Itoa(len(args)+1); args = append(args, value)`
unfoldable pub and_equals : Item → Datum → Filter → Filter
and_equals item value f = record {
  tests = f.tests ++ (record { item = item; param = length f.args + 1 } ∷ []);
  args = f.args ++ (value ∷ []);
}

abbrev pub with_action : Option String → Filter → Filter
with_action none f = f
with_action (some action) f = and_equals (column "action") (name (trim_space action)) f

abbrev pub with_source : Option String → Filter → Filter
with_source none f = f
with_source (some source) f = and_equals source_item (name (trim_space source)) f

abbrev pub with_level : Bool → Option ℤ → Filter → Filter
with_level all none f = f
with_level all (some level) f =
    if not all then and_equals (column "cache_level") (int level) f else f

unfoldable pub list_filter : String → Option String → Option String → Filter
unfolding and_equals
list_filter tenant action source = with_source source (with_action action (of_tenant tenant))

unfoldable pub summary_filter : String → Option String → Option ℤ → Bool → Option String → Filter
unfolding and_equals
summary_filter tenant action level all source =
    with_level all level (with_source source (with_action action (of_tenant tenant)))

-- `if limit <= 0 { limit = 200 }`
unfoldable pub limit_or_default : ℤ → ℤ
limit_or_default (pos zero) = pos 200
limit_or_default (negsuc n) = pos 200
limit_or_default limit = limit

abbrev pub select_perf_logs : Filter → Select
select_perf_logs f = record {
  items = perf_items;
  table = "perf_logs";
  tests = f.tests;
  order = desc "ts" ∷ [];
  limit = some (length f.args + 1);
}

abbrev pub summarize_perf_logs : Filter → Group
summarize_perf_logs f = record {
  table = "perf_logs";
  keys = "action" ∷ "dcs_enabled" ∷ "cache_level" ∷ [];
  average = "total_ms";
  tests = f.tests;
  order = asc "action" ∷ desc "dcs_enabled" ∷ asc "cache_level" ∷ [];
}

module _ (u : Uuids) {D : Type 0} (pool : Pool D) where
  unfoldable pub create : PerfLog → Act D (Unit {0})
  unfolding nullable_uuid nullable_string
  create log = do now ← pool.now; pool.exec insert_perf_log (perf_args u now log)

  unfoldable pub list : String → ℤ → Option String → Option String → Act D (List PerfLog)
  unfolding list_filter limit_or_default
  list tenant limit action source =
      let f = list_filter tenant action source in
      do
        rows ← pool.query (select_perf_logs f) (f.args ++ (int (limit_or_default limit) ∷ []))
        lift (scan_rows (scan_perf_log u) rows)

  unfoldable pub summary :
      String → Option String → Option ℤ → Bool → Option String → Act D (List PerfSummary)
  unfolding summary_filter
  summary tenant action level all source =
      let f = summary_filter tenant action level all source in
      do
        rows ← pool.query_groups (summarize_perf_logs f) f.args
        lift (scan_rows scan_perf_summary rows)

  -- The service always gives the address of a source.
  abbrev pub postgres_perf_logs : PerfLogRepository D
  postgres_perf_logs = record {
    create = create;
    list = λ tenant limit action source. list tenant limit action (some source);
    summary = λ tenant action level all source. summary tenant action level all (some source);
  }
