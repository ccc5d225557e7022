-- ===== src/Repo/Postgres/Scan.antt =====
-- The scanning of one row in internal/repository/postgres: `rows.Scan` into variables, in the order of
-- the selected columns, and what becomes of an absent value.
pub mod Cells
use poc_dcs.Common.{
  String, Text, ℕ, ℤ, pos, negsuc, Bool, Option, none, some, List, [], ◌∷◌, Result, ok, err, ◌>>=◌,
}
use poc_dcs.Repo.Films.{FilmRecord}
use poc_dcs.Repo.Halls.{Hall, HallRecord}
use poc_dcs.Repo.Spectators.{Spectator}
use poc_dcs.Service.System.{AuditLog, PerfLog}
use poc_dcs.Service.Logs.{PerfSummary}
use poc_dcs.Auth.Login.{User}
use poc_dcs.Pip.{FieldClassification}
use poc_dcs.Repo.Postgres.Sql.{
  Datum, Uuids, scan_error, as_name, as_text, as_blob, as_int, as_float, as_boolean, as_timestamp,
  as_names, as_labels, as_json, as_optional_name, as_optional_float, as_details, as_id, as_id_name,
  as_uuid, as_uuid_name,
}

-- A string into which a pointer that may be nil is copied.
abbrev pub or_empty : Option String → String
or_empty none = ""
or_empty (some s) = s

-- A count, which is not negative.
abbrev pub counted : ℤ → ℕ
counted (pos n) = n
counted (negsuc n) = 0

unfoldable pub scan_classification : List Datum → Result FieldClassification
scan_classification (resource ∷ field ∷ class ∷ []) = do
  resource_type ← as_name resource
  field_name ← as_name field
  classification ← as_name class
  ok (record {
    resource_type = resource_type;
    field_name = field_name;
    classification = classification;
  })
scan_classification _ = err scan_error

unfoldable pub scan_perf_summary : List Datum → Result PerfSummary
scan_perf_summary (action ∷ enabled ∷ level ∷ average ∷ count ∷ []) = do
  action' ← as_name action
  dcs_enabled ← as_boolean enabled
  cache_level ← as_int level
  avg_total_ms ← as_optional_float average
  count' ← as_int count
  ok (record {
    action = action';
    dcs_enabled = dcs_enabled;
    cache_level = cache_level;
    avg_total_ms = avg_total_ms;
    count = counted count';
  })
scan_perf_summary _ = err scan_error

module _ (u : Uuids) where
  unfoldable pub scan_film : List Datum → Result FilmRecord
  scan_film (id ∷ tenant ∷ title ∷ time ∷ []) = do
    id' ← as_id u id
    tenant_id ← as_name tenant
    title' ← as_text title
    time_elapsed_ct ← as_text time
    ok (record {
      tenant_id = tenant_id;
      id = id';
      title = title';
      time_elapsed_ct = time_elapsed_ct;
    })
  scan_film _ = err scan_error

  -- The labels and the time of creation are scanned as well.
  unfoldable pub scan_film_row : List Datum → Result FilmRecord
  scan_film_row (id ∷ tenant ∷ title ∷ time ∷ marks ∷ created ∷ []) = do
    id' ← as_id u id
    tenant_id ← as_name tenant
    title' ← as_text title
    time_elapsed_ct ← as_text time
    labels ← as_labels marks
    created_at ← as_timestamp created
    ok (record {
      tenant_id = tenant_id;
      id = id';
      title = title';
      time_elapsed_ct = time_elapsed_ct;
    })
  scan_film_row _ = err scan_error

  unfoldable pub scan_hall_record : List Datum → Result HallRecord
  scan_hall_record (id ∷ tenant ∷ title ∷ owner ∷ film ∷ []) = do
    id' ← as_uuid u id
    tenant_id ← as_name tenant
    name ← as_text title
    owner_user_id ← as_uuid u owner
    current_film_id ← as_uuid u film
    ok (record {
      tenant_id = tenant_id;
      id = id';
      name = name;
      owner_user_id = owner_user_id;
      current_film_id = current_film_id;
    })
  scan_hall_record _ = err scan_error

  unfoldable pub scan_hall : List Datum → Result Hall
  scan_hall (id ∷ tenant ∷ title ∷ owner ∷ film ∷ marks ∷ created ∷ []) = do
    id' ← as_uuid u id
    tenant_id ← as_name tenant
    name ← as_text title
    owner_user_id ← as_uuid u owner
    current_film_id ← as_uuid u film
    labels ← as_labels marks
    created_at ← as_timestamp created
    ok (record {
      tenant_id = tenant_id;
      id = id';
      name = name;
      owner_user_id = owner_user_id;
      current_film_id = current_film_id;
    })
  scan_hall _ = err scan_error

  unfoldable pub scan_spectator : List Datum → Result Spectator
  scan_spectator (tenant ∷ id ∷ hall ∷ title ∷ age ∷ external ∷ digest ∷ marks ∷ created ∷ []) = do
    tenant_id ← as_name tenant
    id' ← as_uuid u id
    hall_id ← as_uuid u hall
    name_ct ← as_text title
    age_ct ← as_text age
    external_id_ct ← as_text external
    external_id_lookup ← as_blob digest
    labels ← as_labels marks
    created_at ← as_timestamp created
    ok (record {
      tenant_id = tenant_id;
      id = id';
      hall_id = hall_id;
      name_ct = name_ct;
      age_ct = age_ct;
      external_id_ct = external_id_ct;
      external_id_lookup = external_id_lookup;
    })
  scan_spectator _ = err scan_error

  unfoldable pub scan_user : List Datum → Result User
  scan_user (id ∷ tenant ∷ user ∷ hash ∷ role ∷ marks ∷ created ∷ []) = do
    id' ← as_id_name u id
    tenant_id ← as_name tenant
    username ← as_name user
    password_hash ← as_text hash
    role' ← as_name role
    labels ← as_json marks
    created_at ← as_timestamp created
    ok (record {
      id = id';
      tenant_id = tenant_id;
      username = username;
      password_hash = password_hash;
      role = role';
    })
  scan_user _ = err scan_error

  unfoldable pub scan_perf_log : List Datum → Result PerfLog
  scan_perf_log
        (ts ∷ req ∷ tenant ∷ user ∷ role ∷ src ∷ act ∷ res ∷ dcs ∷ level ∷ total ∷ pip ∷ pdp ∷ kms
          ∷ db ∷ []) =
      do
        time ← as_timestamp ts
        request_id ← as_name req
        tenant_id ← as_name tenant
        subject_user_id ← as_uuid_name u user
        subject_role ← as_optional_name role
        source ← as_name src
        action ← as_name act
        resource_type ← as_name res
        dcs_enabled ← as_boolean dcs
        cache_level ← as_int level
        total_ms ← as_float total
        pip_ms ← as_optional_float pip
        pdp_ms ← as_optional_float pdp
        kms_ms ← as_optional_float kms
        db_ms ← as_optional_float db
        ok (record {
          request_id = request_id;
          tenant_id = tenant_id;
          subject_user_id = subject_user_id;
          subject_role = or_empty subject_role;
          source = source;
          action = action;
          resource_type = resource_type;
          dcs_enabled = dcs_enabled;
          cache_level = cache_level;
          timings = record {
            total_ms = total_ms;
            pip_ms = pip_ms;
            pdp_ms = pdp_ms;
            kms_ms = kms_ms;
            db_ms = db_ms;
          };
        })
  scan_perf_log _ = err scan_error

  unfoldable pub scan_audit_log : List Datum → Result AuditLog
  scan_audit_log
        (id ∷ ts ∷ req ∷ tenant ∷ user ∷ role ∷ act ∷ res ∷ of ∷ out ∷ hash ∷ plain ∷ masked
          ∷ denied ∷ json ∷ []) =
      do
        number ← as_int id
        time ← as_timestamp ts
        request_id ← as_name req
        tenant_id ← as_name tenant
        subject_user_id ← as_uuid_name u user
        subject_role ← as_optional_name role
        action ← as_name act
        resource_type ← as_name res
        resource_id ← as_uuid u of
        outcome ← as_name out
        decision_hash ← as_optional_name hash
        fields_decrypted ← as_names plain
        fields_masked ← as_names masked
        fields_denied ← as_names denied
        details ← as_details json
        ok (record {
          request_id = request_id;
          tenant_id = tenant_id;
          subject_user_id = subject_user_id;
          subject_role = or_empty subject_role;
          action = action;
          resource_type = resource_type;
          resource_id = resource_id;
          outcome = outcome;
          decision_hash = or_empty decision_hash;
          fields_decrypted = fields_decrypted;
          fields_masked = fields_masked;
          fields_denied = fields_denied;
          details = details;
        })
  scan_audit_log _ = err scan_error
