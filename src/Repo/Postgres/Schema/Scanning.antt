-- ===== src/Repo/Postgres/Schema/Scanning.antt =====
-- Every row that fits its table is scanned.
use poc_dcs.Common.{lookup, string_eq, String, ◌≡◌, refl, true, false, Map, ok}
use poc_dcs.Pep.Payload.{Value}
use poc_dcs.Service.System.{AuditLog, PerfLog}
use poc_dcs.Auth.Login.{User}
use poc_dcs.Pip.{FieldClassification}
use poc_dcs.Repo.Films.{FilmRecord}
use poc_dcs.Repo.Halls.{HallRecord}
use poc_dcs.Repo.Postgres.Sql.{Datum, Uuids, as_details}
use poc_dcs.Repo.Postgres.Scan.{
  scan_film, scan_hall_record, scan_user, scan_classification, scan_perf_log, scan_audit_log,
}
use poc_dcs.Repo.Postgres.Meaning.{Row, cell, project}
use poc_dcs.Repo.Postgres.Halls.{halls_of_tenant}
use poc_dcs.Repo.Postgres.Films.{film_items}
use poc_dcs.Repo.Postgres.Users.{user_of_name}
use poc_dcs.Repo.Postgres.Classifications.{classification_items}
use poc_dcs.Repo.Postgres.PerfLogs.{perf_items}
use poc_dcs.Repo.Postgres.AuditLogs.{select_audit_logs}
use poc_dcs.Repo.Postgres.Schema
use poc_dcs.Repo.Postgres.Schema.{FitsRow}
use poc_dcs.Repo.Postgres.Schema.Readers.{
  fits, details_scanned, then-IsOk, bigint_scanned, boolean_scanned, default_float_scanned,
  default_name_scanned, id_name_scanned, id_scanned, int_scanned, json_scanned, name_scanned,
  names_scanned, optional_float_scanned, optional_name_scanned, text_scanned, time_scanned,
  uuid_name_scanned, uuid_scanned,
}

classification_scanned :
    (row : Row)
    → FitsRow Schema.field_classification row
    → (x : FieldClassification) × (scan_classification (project classification_items row) ≡ ok x)
unfolding scan_classification lookup
classification_scanned row h =
    then-IsOk (name_scanned _ (fits Schema.field_classification row h "resource_type" refl))
      (λ resource_type.
        then-IsOk (name_scanned _ (fits Schema.field_classification row h "field_name" refl))
          (λ field_name.
            then-IsOk
              (name_scanned _ (fits Schema.field_classification row h "classification" refl))
              (λ classification. (_, refl))))

module _ (u : Uuids) where
  film_scanned :
      (row : Row)
      → FitsRow Schema.films row
      → (x : FilmRecord) × (scan_film u (project film_items row) ≡ ok x)
  unfolding scan_film lookup
  film_scanned row h = then-IsOk (id_scanned u _ (fits Schema.films row h "id" refl)) (λ id.
      then-IsOk (name_scanned _ (fits Schema.films row h "tenant_id" refl)) (λ tenant_id.
        then-IsOk (text_scanned _ (fits Schema.films row h "title" refl)) (λ title.
          then-IsOk (text_scanned _ (fits Schema.films row h "time_elapsed_ct" refl))
            (λ time_elapsed_ct. (_, refl)))))

  hall_scanned :
      (row : Row)
      → FitsRow Schema.halls row
      → (x : HallRecord) × (scan_hall_record u (project halls_of_tenant.items row) ≡ ok x)
  unfolding scan_hall_record lookup
  hall_scanned row h = then-IsOk (uuid_scanned u true _ (fits Schema.halls row h "id" refl)) (λ id.
      then-IsOk (name_scanned _ (fits Schema.halls row h "tenant_id" refl)) (λ tenant_id.
        then-IsOk (text_scanned _ (fits Schema.halls row h "name" refl)) (λ name.
          then-IsOk (uuid_scanned u true _ (fits Schema.halls row h "owner_user_id" refl))
            (λ owner_user_id.
              then-IsOk (uuid_scanned u true _ (fits Schema.halls row h "current_film_id" refl))
                (λ current_film_id. (_, refl))))))

  user_scanned :
      (row : Row)
      → FitsRow Schema.users row
      → (x : User) × (scan_user u (project user_of_name.items row) ≡ ok x)
  unfolding scan_user lookup
  user_scanned row h = then-IsOk (id_name_scanned u _ (fits Schema.users row h "id" refl)) (λ id.
      then-IsOk (name_scanned _ (fits Schema.users row h "tenant_id" refl)) (λ tenant_id.
        then-IsOk (name_scanned _ (fits Schema.users row h "username" refl)) (λ username.
          then-IsOk (text_scanned _ (fits Schema.users row h "password_hash" refl))
            (λ password_hash.
              then-IsOk (name_scanned _ (fits Schema.users row h "role" refl)) (λ role.
                then-IsOk ((tt, json_scanned _ (fits Schema.users row h "labels" refl))) (λ labels.
                  then-IsOk (time_scanned _ (fits Schema.users row h "created_at" refl))
                    (λ created_at. (_, refl))))))))

  perf_log_scanned :
      (row : Row)
      → FitsRow Schema.perf_logs row
      → (x : PerfLog) × (scan_perf_log u (project perf_items row) ≡ ok x)
  unfolding scan_perf_log lookup
  perf_log_scanned row h = then-IsOk (time_scanned _ (fits Schema.perf_logs row h "ts" refl)) (λ ts.
      then-IsOk (name_scanned _ (fits Schema.perf_logs row h "request_id" refl)) (λ request_id.
        then-IsOk (name_scanned _ (fits Schema.perf_logs row h "tenant_id" refl)) (λ tenant_id.
          then-IsOk (uuid_name_scanned u _ (fits Schema.perf_logs row h "subject_user_id" refl))
            (λ subject_user_id.
              then-IsOk (optional_name_scanned _ (fits Schema.perf_logs row h "subject_role" refl))
                (λ subject_role.
                  then-IsOk
                    (default_name_scanned _ "unknown" (fits Schema.perf_logs row h "source" refl))
                    (λ source.
                      then-IsOk (name_scanned _ (fits Schema.perf_logs row h "action" refl))
                        (λ action.
                          then-IsOk
                            (name_scanned _ (fits Schema.perf_logs row h "resource_type" refl))
                            (λ resource_type.
                              then-IsOk
                                (boolean_scanned _ (fits Schema.perf_logs row h "dcs_enabled" refl))
                                (λ dcs_enabled.
                                  then-IsOk
                                    (int_scanned _ (fits Schema.perf_logs row h "cache_level" refl))
                                    (λ cache_level.
                                      then-IsOk
                                        (default_float_scanned _ 0
                                          (fits Schema.perf_logs row h "total_ms" refl))
                                        (λ total_ms.
                                          then-IsOk
                                            (optional_float_scanned _
                                              (fits Schema.perf_logs row h "pip_ms" refl))
                                            (λ pip_ms.
                                              then-IsOk
                                                (optional_float_scanned _
                                                  (fits Schema.perf_logs row h "pdp_ms" refl))
                                                (λ pdp_ms.
                                                  then-IsOk
                                                    (optional_float_scanned _
                                                      (fits Schema.perf_logs row h "kms_ms" refl))
                                                    (λ kms_ms.
                                                      then-IsOk
                                                        (optional_float_scanned _ (
                                                          fits Schema.perf_logs row h "db_ms" refl))
                                                        (λ db_ms. (_, refl))))))))))))))))

  audit_log_scanned :
      (row : Row) (m : Map String Value)
      → FitsRow Schema.audit_logs row
      → cell "details" row ≡ Datum.object m
      → (x : AuditLog) × (scan_audit_log u (project select_audit_logs.items row) ≡ ok x)
  unfolding scan_audit_log as_details lookup
  audit_log_scanned row m h is_object =
      then-IsOk (bigint_scanned _ (fits Schema.audit_logs row h "id" refl)) (λ id.
        then-IsOk (time_scanned _ (fits Schema.audit_logs row h "ts" refl)) (λ ts.
          then-IsOk (name_scanned _ (fits Schema.audit_logs row h "request_id" refl)) (λ request_id.
            then-IsOk (name_scanned _ (fits Schema.audit_logs row h "tenant_id" refl)) (λ tenant_id.
              then-IsOk
                (uuid_name_scanned u _ (fits Schema.audit_logs row h "subject_user_id" refl))
                (λ subject_user_id.
                  then-IsOk
                    (optional_name_scanned _ (fits Schema.audit_logs row h "subject_role" refl))
                    (λ subject_role.
                      then-IsOk (name_scanned _ (fits Schema.audit_logs row h "action" refl))
                        (λ action.
                          then-IsOk
                            (name_scanned _ (fits Schema.audit_logs row h "resource_type" refl))
                            (λ resource_type.
                              then-IsOk
                                (uuid_scanned u false _
                                  (fits Schema.audit_logs row h "resource_id" refl))
                                (λ resource_id.
                                  then-IsOk
                                    (name_scanned _ (fits Schema.audit_logs row h "outcome" refl))
                                    (λ outcome.
                                      then-IsOk
                                        (optional_name_scanned _
                                          (fits Schema.audit_logs row h "decision_hash" refl))
                                        (λ decision_hash.
                                          then-IsOk
                                            (names_scanned _ (
                                              fits Schema.audit_logs row h "fields_decrypted" refl))
                                            (λ fields_decrypted.
                                              then-IsOk
                                                (names_scanned _ (
                                                  fits Schema.audit_logs row h "fields_masked"
                                                    refl))
                                                (λ fields_masked.
                                                  then-IsOk
                                                    (names_scanned _ (
                                                      fits Schema.audit_logs row h "fields_denied"
                                                        refl))
                                                    (λ fields_denied.
                                                      then-IsOk (details_scanned _ m is_object)
                                                        (λ details. (_, refl))))))))))))))))

  -- A row that fits its table is scanned without an error by the list of films, the list of halls, the
  -- search for a user, the list of performance logs, the list of audit entries, if its details are a
  -- JSON object, and the selections of field classifications. The films and halls that are found by
  -- their identifier, and the spectators, are scanned with labels, and are not meant.
  pub fitting_rows_scan :
      (film hall user perf entry field : Row) (details : Map String Value)
      → FitsRow Schema.films film
      → FitsRow Schema.halls hall
      → FitsRow Schema.users user
      → FitsRow Schema.perf_logs perf
      → FitsRow Schema.audit_logs entry
      → cell "details" entry ≡ Datum.object details
      → FitsRow Schema.field_classification field
      → ((x : FilmRecord) × (scan_film u (project film_items film) ≡ ok x))
        × ((x : HallRecord) × (scan_hall_record u (project halls_of_tenant.items hall) ≡ ok x))
        × ((x : User) × (scan_user u (project user_of_name.items user) ≡ ok x))
        × ((x : PerfLog) × (scan_perf_log u (project perf_items perf) ≡ ok x))
        × ((x : AuditLog) × (scan_audit_log u (project select_audit_logs.items entry) ≡ ok x))
        × ((x : FieldClassification) × (scan_classification (project classification_items field)
              ≡ ok x))
  fitting_rows_scan film hall user perf entry field details f h us p a is_object c = (
    film_scanned film f,
    hall_scanned hall h,
    user_scanned user us,
    perf_log_scanned perf p,
    audit_log_scanned entry details a is_object,
    classification_scanned field c,
  )
