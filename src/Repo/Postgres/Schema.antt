-- ===== src/Repo/Postgres/Schema.antt =====
-- infra/postgres/init/01_init.sql: the columns of the tables. The checks, the keys and the defaults are
-- left out.
pub mod Inserting
pub mod Readers
pub mod Scanning
use poc_dcs.Common.{
  String, string_eq, Text, ℕ, ℤ, Bool, true, false, ◌≡◌, ◌⊎◌, Option, none, some, ◌==◌,
  if◌then◌else◌, List, [], ◌∷◌, Map, lookup, All,
}
use poc_dcs.Pep.Payload.{Value}
use poc_dcs.Repo.Postgres.Sql.{Datum, null, Source, param, literal, call, Insert}
use poc_dcs.Repo.Postgres.Meaning.{Row, cell, arg}

-- TEXT is `named` where the program has the column as a native string, and `bytes` where it has its
-- bytes.
pub data SqlType : Type 0 where
  named bytes uuid jsonb timestamptz bytea bigint integer boolean double text_array : SqlType

pub record Column : Type 0 where
  pub type : SqlType
  pub not_null : Bool

abbrev required : SqlType → Column
required t = record { type = t; not_null = true }

abbrev nullable : SqlType → Column
nullable t = record { type = t; not_null = false }

abbrev pub Columns : Type 0
Columns = Map String Column

abbrev pub users : Columns
users =
    ("tenant_id", required named)
    ∷ ("id", required uuid)
    ∷ ("username", required named)
    ∷ ("role", required named)
    ∷ ("password_hash", required bytes)
    ∷ ("labels", required jsonb)
    ∷ ("created_at", required timestamptz)
    ∷ []

abbrev pub films : Columns
films =
    ("tenant_id", required named)
    ∷ ("id", required uuid)
    ∷ ("title", required bytes)
    ∷ ("time_elapsed_ct", required bytes)
    ∷ ("labels", required jsonb)
    ∷ ("created_at", required timestamptz)
    ∷ []

abbrev pub halls : Columns
halls =
    ("tenant_id", required named)
    ∷ ("id", required uuid)
    ∷ ("name", required bytes)
    ∷ ("owner_user_id", required uuid)
    ∷ ("current_film_id", required uuid)
    ∷ ("labels", required jsonb)
    ∷ ("created_at", required timestamptz)
    ∷ []

abbrev pub spectators : Columns
spectators =
    ("tenant_id", required named)
    ∷ ("id", required uuid)
    ∷ ("hall_id", required uuid)
    ∷ ("name_ct", required bytes)
    ∷ ("age_ct", required bytes)
    ∷ ("external_id_ct", required bytes)
    ∷ ("external_id_lookup", required bytea)
    ∷ ("labels", required jsonb)
    ∷ ("created_at", required timestamptz)
    ∷ []

abbrev pub field_classification : Columns
field_classification =
    ("resource_type", required named)
    ∷ ("field_name", required named)
    ∷ ("classification", required named)
    ∷ []

abbrev pub audit_logs : Columns
audit_logs =
    ("id", required bigint)
    ∷ ("ts", required timestamptz)
    ∷ ("request_id", required named)
    ∷ ("tenant_id", required named)
    ∷ ("subject_user_id", nullable uuid)
    ∷ ("subject_role", nullable named)
    ∷ ("action", required named)
    ∷ ("resource_type", required named)
    ∷ ("resource_id", nullable uuid)
    ∷ ("outcome", required named)
    ∷ ("decision_hash", nullable named)
    ∷ ("fields_decrypted", required text_array)
    ∷ ("fields_masked", required text_array)
    ∷ ("fields_denied", required text_array)
    ∷ ("details", required jsonb)
    ∷ []

abbrev pub perf_logs : Columns
perf_logs =
    ("id", required bigint)
    ∷ ("ts", required timestamptz)
    ∷ ("request_id", required named)
    ∷ ("tenant_id", required named)
    ∷ ("subject_user_id", nullable uuid)
    ∷ ("subject_role", nullable named)
    ∷ ("source", nullable named)
    ∷ ("action", required named)
    ∷ ("resource_type", required named)
    ∷ ("dcs_enabled", required boolean)
    ∷ ("cache_level", required integer)
    ∷ ("total_ms", nullable double)
    ∷ ("pip_ms", nullable double)
    ∷ ("pdp_ms", nullable double)
    ∷ ("kms_ms", nullable double)
    ∷ ("db_ms", nullable double)
    ∷ []

-- The values of a type.
pub data HasType : SqlType → Datum → Type 0 where
  named : {s : String} → HasType SqlType.named (Datum.name s)
  bytes : {s : Text} → HasType SqlType.bytes (Datum.text s)
  uuid : {s : Text} → HasType SqlType.uuid (Datum.uuid s)
  labels : {l : List String} → HasType jsonb (Datum.labels l)
  object : {m : Map String Value} → HasType jsonb (Datum.object m)
  timestamptz : {t : ℕ} → HasType SqlType.timestamptz (Datum.timestamp t)
  bytea : {s : Text} → HasType SqlType.bytea (Datum.blob s)
  bigint : {n : ℤ} → HasType SqlType.bigint (Datum.int n)
  integer : {n : ℤ} → HasType SqlType.integer (Datum.int n)
  boolean : {b : Bool} → HasType SqlType.boolean (Datum.boolean b)
  double : {n : ℕ} → HasType SqlType.double (Datum.float n)
  text_array : {l : List String} → HasType SqlType.text_array (Datum.names l)

abbrev pub Fits : Column → Datum → Type 0
Fits c v = HasType c.type v ⊎ ((v ≡ null) × (c.not_null ≡ false))

-- The row has in every column a value that fits.
abbrev pub FitsRow : Columns → Row → Type 0
FitsRow columns row = All (λ (c : String × Column). Fits c.1 (cell c.0 row)) columns

abbrev pub FitsColumn : Columns → String → Datum → Type 0
FitsColumn columns c v = (column : Column) × (lookup c columns ≡ some column) × Fits column v

-- The type of what a function of the database gives.
abbrev pub returns : String → Option SqlType
returns f =
    if f == "gen_random_uuid" then some uuid else if f == "now" then some timestamptz else none

abbrev pub FitsSource : Columns → List Datum → String → Source → Type 0
FitsSource columns args c (param n) = FitsColumn columns c (arg n args)
FitsSource columns args c (literal v) = FitsColumn columns c v
FitsSource columns args c (call f) =
    (column : Column) × (lookup c columns ≡ some column) × (returns f ≡ some column.type)

-- Each column that an insertion names is one of the table, and is given a value that fits.
abbrev pub FitsValues : Columns → List Datum → List String → List Source → Type 0
FitsValues columns args [] [] = Unit
FitsValues columns args [] (v ∷ values) = ⊥
FitsValues columns args (c ∷ names) [] = ⊥
FitsValues columns args (c ∷ names) (v ∷ values) =
    FitsSource columns args c v × FitsValues columns args names values
