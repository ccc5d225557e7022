-- ===== src/Repo/Postgres/PerfLogs/Recorded.antt =====
-- What is read back of a performance log.
use poc_dcs.Common.{
  String, Text, arith, string_eq, ◌==◌, bytes, ◌≡◌, refl, Option, none, some, List, [], ◌∷◌, ok, In,
  Bool-cases, inl, inr, Option-cases, ℕ, if◌then◌else◌,
}
use poc_dcs.Action.{bind-ok_at}
use poc_dcs.Strings.{trim_space}
use poc_dcs.Service.System.{PerfLog}
use poc_dcs.Repo.Postgres.Sql.{
  name, int, float, boolean, timestamp, Pool, Uuids, as_name, as_optional_name, as_int, as_float,
  as_optional_float, as_boolean, as_timestamp, as_uuid_name, uuid_or_null,
}
use poc_dcs.Repo.Postgres.Scan.{scan_perf_log, or_empty}
use poc_dcs.Repo.Postgres.Meaning.{Row, project, or_default, IsPostgres}
use poc_dcs.Repo.Postgres.PerfLogs.{
  create, insert_perf_log, perf_args, perf_items, nullable_string, nullable_uuid, optional_float,
}

-- A text that is blank is lost.
abbrev pub unless_blank : (other value : String) → String
unless_blank other value = if trim_space value == "" then other else value

-- A subject is kept as the UUID that it spells, printed, and lost if it spells none.
abbrev pub printed_or_empty : Uuids → Option Text → String
printed_or_empty u none = ""
printed_or_empty u (some w) = u.print_name w

abbrev pub recorded_subject : Uuids → String → String
recorded_subject u value =
    if trim_space value == "" then "" else printed_or_empty u (u.parse (bytes value))

nullable_string-or_default :
    (value other : String)
    → as_name (or_default (name other) (nullable_string value)) ≡ ok (unless_blank other value)
unfolding nullable_string as_name
nullable_string-or_default value other = ground arith

pub nullable_string-scanned :
    (value : String)
    → (o : Option String) × (as_optional_name (nullable_string value) ≡ ok o)
      × (or_empty o ≡ unless_blank "" value)
unfolding nullable_string as_optional_name
nullable_string-scanned value = elim (Bool-cases (trim_space value == "")) [
  | inl blank ↦ (none, rw blank refl, rw blank refl)
  | inr given ↦ (some value, rw given refl, rw given refl)
]

pub nullable_uuid-scanned :
    (u : Uuids) (value : String)
    → as_uuid_name u (nullable_uuid u value) ≡ ok (recorded_subject u value)
unfolding nullable_uuid uuid_or_null as_uuid_name
nullable_uuid-scanned u value = elim (Bool-cases (trim_space value == "")) [
  | inl blank ↦ rw blank refl
  | inr given ↦ elim (Option-cases (u.parse (bytes value))) [
    | inl missing ↦ rw (given, missing, uuid_or_null) refl
    | inr (w, found) ↦ rw (given, found, uuid_or_null) refl
  ]
]

optional_float-scanned : (o : Option ℕ) → as_optional_float (optional_float o) ≡ ok o
unfolding as_optional_float
optional_float-scanned none = refl
optional_float-scanned (some n) = refl

abbrev pub recorded : Uuids → PerfLog → PerfLog
recorded u log = record log {
  subject_user_id = recorded_subject u log.subject_user_id;
  subject_role = unless_blank "" log.subject_role;
  source = unless_blank "unknown" log.source;
}

module _ (u : Uuids) where
  -- The cells of a row that was written are scanned as the log that is recorded.
  scanned :
      (log : PerfLog) (now : ℕ)
      → scan_perf_log u (
          timestamp now
          ∷ name log.request_id
          ∷ name log.tenant_id
          ∷ nullable_uuid u log.subject_user_id
          ∷ nullable_string log.subject_role
          ∷ or_default (name "unknown") (nullable_string log.source)
          ∷ name log.action
          ∷ name log.resource_type
          ∷ boolean log.dcs_enabled
          ∷ int log.cache_level
          ∷ float log.timings.total_ms
          ∷ optional_float log.timings.pip_ms
          ∷ optional_float log.timings.pdp_ms
          ∷ optional_float log.timings.kms_ms
          ∷ optional_float log.timings.db_ms
          ∷ [])
        ≡ ok (recorded u log)
  unfolding scan_perf_log as_timestamp as_name as_boolean as_int as_float
  scanned log now =
      let (role, role_scanned, role_is) = nullable_string-scanned log.subject_role in
      rw
        (
          nullable_uuid-scanned u log.subject_user_id,
          role_scanned,
          nullable_string-or_default log.source "unknown",
          optional_float-scanned log.timings.pip_ms,
          optional_float-scanned log.timings.pdp_ms,
          optional_float-scanned log.timings.kms_ms,
          optional_float-scanned log.timings.db_ms,
          role_is,
        )
        refl

  module _ {D : Type 0} (pool : Pool D) (tables : D → String → List Row)
      (pg : IsPostgres u pool tables) where
    -- A performance log that is written without an error is a row of the table that is read back as
    -- the same log, but for a blank source, which becomes `unknown`, a blank role, which becomes
    -- empty, and the subject, which is the print of the UUID that it spells, or empty if it spells
    -- none.
    pub create-recorded :
        (log : PerfLog) (d : D)
        → (create u pool log d).0 ≡ ok tt
        → (row : Row) × In row (tables (create u pool log d).1 "perf_logs")
          × (scan_perf_log u (project perf_items row) ≡ ok (recorded u log))
    unfolding create
    create-recorded log d written =
        let (now, told, done) = bind-ok_at pool.now _ d written in
        let (
          row,
          there,
          (
            c1,
            (
              c2,
              (c3, (c4, (c5, (c6, (c7, (c8, (c9, (c10, (c11, (c12, (c13, (c14, (c15, _))))))))))))),
            ),
          ),
        ) =
          pg.exec_adds insert_perf_log (perf_args u now log) (pool.now d).1 done in
        (
          row,
          rw told there,
          rw (c1, c2, c3, c4, c5, c6, c7, c8, c9, c10, c11, c12, c13, c14, c15) (scanned log now),
        )
