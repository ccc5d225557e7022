-- ===== src/Repo/Postgres/AuditLogs/Recorded.antt =====
-- What is read back of an audit entry.
use poc_dcs.Common.{
  String, Text, text_eq, ◌==◌, ◌≡◌, refl, sym, ap, ◌∙◌, Option, none, some, List, [], ◌∷◌, ok, In,
  Map, ◌⊎◌, ◌≤◌, ◌^◌, Bool-cases, inl, inr, Option-cases, ℕ, ℤ, if◌then◌else◌,
}
use poc_dcs.Action.{bind-ok_at, map_result-eq-ok}
use poc_dcs.Kms.{trim_left}
use poc_dcs.Service.System.{AuditLog}
use poc_dcs.Pep.Payload.{Value}
use poc_dcs.Strconv.Floats.{size, float_int_small}
use poc_dcs.Repo.Postgres.Sql.{
  Datum, name, names, object, timestamp, Pool, Uuids, as_name, as_names, as_int, as_timestamp,
  as_details, unmarshalled, unmarshalled_map, as_uuid, uuid_or_null,
}
use poc_dcs.Repo.Postgres.Scan.{scan_audit_log}
use poc_dcs.Repo.Postgres.Meaning.{Row, cell, project, IsPostgres}
use poc_dcs.Repo.Postgres.PerfLogs.{nullable_string, nullable_uuid}
use poc_dcs.Repo.Postgres.PerfLogs.Recorded.{
  unless_blank, recorded_subject, nullable_string-scanned, nullable_uuid-scanned,
}
use poc_dcs.Repo.Postgres.AuditLogs.{
  create, insert_audit_log, select_audit_logs, audit_args, nullable_uuid_text, scan_id,
}

abbrev pub text_or_empty : Uuids → Option Text → Text
text_or_empty u none = []
text_or_empty u (some w) = u.print w

-- A resource is kept as the UUID that it spells, printed, and lost if it spells none.
abbrev pub recorded_resource : Uuids → Text → Text
recorded_resource u value = if trim_left value == [] then [] else text_or_empty u (u.parse value)

nullable_uuid_text-scanned :
    (u : Uuids) (value : Text)
    → as_uuid u (nullable_uuid_text u value) ≡ ok (recorded_resource u value)
unfolding nullable_uuid_text as_uuid
nullable_uuid_text-scanned u value = elim (Bool-cases (trim_left value == [])) [
  | inl blank ↦ rw blank refl
  | inr given ↦ elim (Option-cases (u.parse value)) [
    | inl missing ↦ rw (given, missing, uuid_or_null) refl
    | inr (w, found) ↦ rw (given, found, uuid_or_null) refl
  ]
]

abbrev pub recorded : Uuids → AuditLog → AuditLog
recorded u log = record log {
  subject_user_id = recorded_subject u log.subject_user_id;
  subject_role = unless_blank "" log.subject_role;
  resource_id = recorded_resource u log.resource_id;
  decision_hash = unless_blank "" log.decision_hash;
  details = unmarshalled_map log.details;
}

-- Detail by detail, what is read back is what was written, but for numbers of 54 bits and more.
abbrev pub IsLarge : Value → Type 0
IsLarge (Value.int n) = 2 ^ 53 ≤ size n
IsLarge _ = ⊥

abbrev pub ReadBack : Map String Value → Map String Value → Type 0
ReadBack [] [] = Unit
ReadBack ((key, v) ∷ written) ((key', w) ∷ read) =
    (key ≡ key') × ((w ≡ v) ⊎ IsLarge v) × ReadBack written read
ReadBack _ _ = ⊥

unmarshalled-exact : (v : Value) → (unmarshalled v ≡ v) ⊎ IsLarge v
unmarshalled-exact Value.null = inl refl
unmarshalled-exact (Value.text s) = inl refl
unmarshalled-exact (Value.int n) = elim (float_int_small n) [
  | inl same ↦ inl (ap Value.int same)
  | inr large ↦ inr large
]

unmarshalled_map-ReadBack : (m : Map String Value) → ReadBack m (unmarshalled_map m)
unfolding unmarshalled_map
unmarshalled_map-ReadBack [] = tt
unmarshalled_map-ReadBack ((key, v) ∷ m) = (refl, unmarshalled-exact v, unmarshalled_map-ReadBack m)

scan_id-ok : (v : Datum) → scan_id (v ∷ []) ≡ ok tt → (n : ℤ) × (as_int v ≡ ok n)
unfolding scan_id
scan_id-ok v h = let (n, got, same) = map_result-eq-ok (λ (n : ℤ). tt) (as_int v) h in (n, got)

module _ (u : Uuids) where
  scanned :
      (log : AuditLog) (now : ℕ) (id : Datum) (n : ℤ)
      → as_int id ≡ ok n
      → scan_audit_log u (
          id
          ∷ timestamp now
          ∷ name log.request_id
          ∷ name log.tenant_id
          ∷ nullable_uuid u log.subject_user_id
          ∷ nullable_string log.subject_role
          ∷ name log.action
          ∷ name log.resource_type
          ∷ nullable_uuid_text u log.resource_id
          ∷ name log.outcome
          ∷ nullable_string log.decision_hash
          ∷ names log.fields_decrypted
          ∷ names log.fields_masked
          ∷ names log.fields_denied
          ∷ object log.details
          ∷ [])
        ≡ ok (recorded u log)
  unfolding scan_audit_log as_timestamp as_name as_names as_details
  scanned log now id n numbered =
      let (role, role_scanned, role_is) = nullable_string-scanned log.subject_role in
      let (hash, hash_scanned, hash_is) = nullable_string-scanned log.decision_hash in
      rw
        (
          numbered,
          nullable_uuid-scanned u log.subject_user_id,
          role_scanned,
          nullable_uuid_text-scanned u log.resource_id,
          hash_scanned,
          role_is,
          hash_is,
        )
        refl

  module _ {D : Type 0} (pool : Pool D) (tables : D → String → List Row)
      (pg : IsPostgres u pool tables) where
    -- An audit entry that is written without an error is a row of the table that is read back as the
    -- same entry, but for a blank role or decision hash, which becomes empty, the subject and the
    -- resource, each of which is the print of the UUID that it spells, or empty if it spells none,
    -- and the numbers of the details, each of which is rounded to a float64. A detail that is a
    -- number below 2 ^ 53 in size is read back as it was given.
    pub audit-recorded :
        (log : AuditLog) (d : D)
        → (create u pool log d).0 ≡ ok tt
        → (row : Row) × In row (tables (create u pool log d).1 "audit_logs")
          × (scan_audit_log u (project select_audit_logs.items row) ≡ ok (recorded u log))
          × ReadBack log.details (recorded u log).details
    unfolding create
    audit-recorded log d written =
        let (now, told, written') = bind-ok_at pool.now _ d written in
        let args = audit_args u now log in
        let (answer, inserted, numbered) =
          bind-ok_at (pool.insert_row insert_audit_log args) _ (pool.now d).1 written' in
        let (
          row,
          there,
          (
            c1,
            (c2, (c3, (c4, (c5, (c6, (c7, (c8, (c9, (c10, (c11, (c12, (c13, (c14, _))))))))))))),
          ),
          shown,
        ) =
          pg.insert_adds insert_audit_log args (pool.now d).1 answer inserted in
        let (n, got) = scan_id-ok (cell "id" row) (ap scan_id (sym shown) ∙ numbered) in
        (
          row,
          rw (told, inserted) there,
          rw (c1, c2, c3, c4, c5, c6, c7, c8, c9, c10, c11, c12, c13, c14)
              (scanned log now (cell "id" row) n got),
          unmarshalled_map-ReadBack log.details,
        )
