-- ===== src/Tests/Engine/Fitting.antt =====
-- Rows and insertions that fit the tables.
use poc_dcs.Common.{bytes, pos, ◌≡◌, refl, [], ◌∷◌, ok, inl, inr, true, string_eq}
use poc_dcs.Repo.Postgres.Schema.{HasType}
use poc_dcs.Repo.Films.{FilmRecord}
use poc_dcs.Repo.Postgres.Sql.{Datum, null, name, text, uuid, int, object, timestamp}
use poc_dcs.Repo.Postgres.Meaning.{Row, cell, project}
use poc_dcs.Repo.Postgres.Scan.{scan_perf_log, scan_audit_log, scan_film}
use poc_dcs.Repo.Postgres.Halls.{postgres_halls}
use poc_dcs.Repo.Postgres.PerfLogs as PerfLogs
use poc_dcs.Repo.Postgres.PerfLogs.{perf_items}
use poc_dcs.Repo.Postgres.AuditLogs as AuditLogs
use poc_dcs.Repo.Postgres.Films as Films
use poc_dcs.Repo.Postgres.Spectators as Spectators
use poc_dcs.Service.System.{AuditLog, PerfLog}
use poc_dcs.Auth.Login.{User}
use poc_dcs.Pip.{FieldClassification}
use poc_dcs.Repo.Halls.{HallRecord}
use poc_dcs.Repo.Postgres.Halls as PgHalls
use poc_dcs.Repo.Postgres.Users.{user_of_name}
use poc_dcs.Repo.Postgres.Classifications.{classification_items}
use poc_dcs.Repo.Postgres.Scan.{scan_hall_record, scan_user, scan_classification}
use poc_dcs.Repo.Postgres.Schema
use poc_dcs.Repo.Postgres.Schema.{FitsRow}
use poc_dcs.Repo.Postgres.Schema.Scanning.{fitting_rows_scan}
use poc_dcs.Tests.Engine.{uuids}

abbrev film_row : Row
film_row =
    ("tenant_id", name "x")
    ∷ ("id", uuid (bytes "1"))
    ∷ ("title", text (bytes "x"))
    ∷ ("time_elapsed_ct", text (bytes "x"))
    ∷ ("labels", object [])
    ∷ ("created_at", timestamp 0)
    ∷ []

film_row-Fits : FitsRow Schema.films film_row
unfolding cell
film_row-Fits = (
  inl HasType.named,
  (
    inl HasType.uuid,
    (inl HasType.bytes, (inl HasType.bytes, (inl HasType.object, (inl HasType.timestamptz, tt)))),
  ),
)

abbrev hall_row : Row
hall_row =
    ("tenant_id", name "x")
    ∷ ("id", uuid (bytes "1"))
    ∷ ("name", text (bytes "x"))
    ∷ ("owner_user_id", uuid (bytes "1"))
    ∷ ("current_film_id", uuid (bytes "1"))
    ∷ ("labels", object [])
    ∷ ("created_at", timestamp 0)
    ∷ []

hall_row-Fits : FitsRow Schema.halls hall_row
unfolding cell
hall_row-Fits = (
  inl HasType.named,
  (
    inl HasType.uuid,
    (
      inl HasType.bytes,
      (inl HasType.uuid, (inl HasType.uuid, (inl HasType.object, (inl HasType.timestamptz, tt)))),
    ),
  ),
)

abbrev user_row : Row
user_row =
    ("tenant_id", name "x")
    ∷ ("id", uuid (bytes "1"))
    ∷ ("username", name "x")
    ∷ ("role", name "x")
    ∷ ("password_hash", text (bytes "x"))
    ∷ ("labels", object [])
    ∷ ("created_at", timestamp 0)
    ∷ []

user_row-Fits : FitsRow Schema.users user_row
unfolding cell
user_row-Fits = (
  inl HasType.named,
  (
    inl HasType.uuid,
    (
      inl HasType.named,
      (inl HasType.named, (inl HasType.bytes, (inl HasType.object, (inl HasType.timestamptz, tt)))),
    ),
  ),
)

abbrev perf_row : Row
perf_row =
    ("id", int (pos 1))
    ∷ ("ts", timestamp 0)
    ∷ ("request_id", name "x")
    ∷ ("tenant_id", name "x")
    ∷ ("subject_user_id", null)
    ∷ ("subject_role", null)
    ∷ ("source", null)
    ∷ ("action", name "x")
    ∷ ("resource_type", name "x")
    ∷ ("dcs_enabled", Datum.boolean true)
    ∷ ("cache_level", int (pos 1))
    ∷ ("total_ms", Datum.float 2)
    ∷ ("pip_ms", null)
    ∷ ("pdp_ms", Datum.float 2)
    ∷ ("kms_ms", Datum.float 2)
    ∷ ("db_ms", Datum.float 2)
    ∷ []

perf_row-Fits : FitsRow Schema.perf_logs perf_row
unfolding cell
perf_row-Fits = (
  inl HasType.bigint,
  (
    inl HasType.timestamptz,
    (
      inl HasType.named,
      (
        inl HasType.named,
        (
          inr (refl, refl),
          (
            inr (refl, refl),
            (
              inr (refl, refl),
              (
                inl HasType.named,
                (
                  inl HasType.named,
                  (
                    inl HasType.boolean,
                    (
                      inl HasType.integer,
                      (
                        inl HasType.double,
                        (
                          inr (refl, refl),
                          (inl HasType.double, (inl HasType.double, (inl HasType.double, tt))),
                        ),
                      ),
                    ),
                  ),
                ),
              ),
            ),
          ),
        ),
      ),
    ),
  ),
)

abbrev entry_row : Row
entry_row =
    ("id", int (pos 1))
    ∷ ("ts", timestamp 0)
    ∷ ("request_id", name "x")
    ∷ ("tenant_id", name "x")
    ∷ ("subject_user_id", null)
    ∷ ("subject_role", null)
    ∷ ("action", name "x")
    ∷ ("resource_type", name "x")
    ∷ ("resource_id", null)
    ∷ ("outcome", name "x")
    ∷ ("decision_hash", null)
    ∷ ("fields_decrypted", Datum.names [])
    ∷ ("fields_masked", Datum.names [])
    ∷ ("fields_denied", Datum.names [])
    ∷ ("details", object [])
    ∷ []

entry_row-Fits : FitsRow Schema.audit_logs entry_row
unfolding cell
entry_row-Fits = (
  inl HasType.bigint,
  (
    inl HasType.timestamptz,
    (
      inl HasType.named,
      (
        inl HasType.named,
        (
          inr (refl, refl),
          (
            inr (refl, refl),
            (
              inl HasType.named,
              (
                inl HasType.named,
                (
                  inr (refl, refl),
                  (
                    inl HasType.named,
                    (
                      inr (refl, refl),
                      (
                        inl HasType.text_array,
                        (
                          inl HasType.text_array,
                          (inl HasType.text_array, (inl HasType.object, tt)),
                        ),
                      ),
                    ),
                  ),
                ),
              ),
            ),
          ),
        ),
      ),
    ),
  ),
)

abbrev field_row : Row
field_row =
    ("resource_type", name "x") ∷ ("field_name", name "x") ∷ ("classification", name "x") ∷ []

field_row-Fits : FitsRow Schema.field_classification field_row
unfolding cell
field_row-Fits = (inl HasType.named, (inl HasType.named, (inl HasType.named, tt)))

fitting_rows_scan_example :
    ((x : FilmRecord) × (scan_film uuids (project Films.film_items film_row) ≡ ok x))
    × ((x : HallRecord) × (scan_hall_record uuids (project PgHalls.halls_of_tenant.items hall_row)
          ≡ ok x))
    × ((x : User) × (scan_user uuids (project user_of_name.items user_row) ≡ ok x))
    × ((x : PerfLog) × (scan_perf_log uuids (project perf_items perf_row) ≡ ok x))
    × ((x : AuditLog) × (scan_audit_log uuids (project AuditLogs.select_audit_logs.items entry_row)
          ≡ ok x))
    × ((x : FieldClassification) × (scan_classification (project classification_items field_row)
          ≡ ok x))
unfolding cell
fitting_rows_scan_example =
    fitting_rows_scan uuids film_row hall_row user_row perf_row entry_row field_row [] film_row-Fits
      hall_row-Fits user_row-Fits perf_row-Fits entry_row-Fits refl field_row-Fits
