-- ===== src/Repo/Postgres/Sql.antt =====
-- What the repositories of internal/repository/postgres share: the SQL statements that they send, as
-- syntax trees, the values that go with them, the connection, and the scanning of the answers.
pub mod Rows
use poc_dcs.Common.{
  String, Text, ℕ, zero, suc, ℤ, Bool, Option, none, some, List, [], ◌∷◌, Map, Result, ok, err,
  Error, other, bytes, string_eq, ◌==◌, if◌then◌else◌, ◌>>=◌,
}
use poc_dcs.Action.{Act}
use poc_dcs.Strings.{trim_space}
use poc_dcs.Strconv.{float_int}
use poc_dcs.Pep.Payload.{Value}

-- A value of a column or an argument. A TEXT is a `name` where the program has it as a native string
-- and a `text` where it has its bytes. JSON is a list of labels or an object; a time is a number of
-- milliseconds.
pub data Datum : Type 0 where
  null : Datum
  name : String → Datum
  text : Text → Datum
  blob : Text → Datum
  uuid : Text → Datum
  int : ℤ → Datum
  float : ℕ → Datum
  boolean : Bool → Datum
  timestamp : ℕ → Datum
  names : List String → Datum
  labels : List String → Datum
  object : Map String Value → Datum

-- A column, or `COALESCE(column, default)`.
pub data Item : Type 0 where
  column : String → Item
  coalesce : String → Datum → Item

-- `item = $n`
pub record Test : Type 0 where
  pub item : Item
  pub param : ℕ

abbrev pub equals : String → ℕ → Test
equals c n = record { item = column c; param = n }

pub data Order : Type 0 where
  asc desc : String → Order

-- `SELECT items FROM table WHERE tests ORDER BY order LIMIT $limit`
pub record Select : Type 0 where
  pub items : List Item
  pub table : String
  pub tests : List Test
  pub order : List Order
  pub limit : Option ℕ

-- `SELECT COUNT(*) FROM table WHERE tests`
pub record Count : Type 0 where
  pub table : String
  pub tests : List Test

-- `SELECT keys, AVG(average), COUNT(*) FROM table WHERE tests GROUP BY keys ORDER BY order`
pub record Group : Type 0 where
  pub table : String
  pub keys : List String
  pub average : String
  pub tests : List Test
  pub order : List Order

-- `$n`, a literal, or the call of a function of the database.
pub data Source : Type 0 where
  param : ℕ → Source
  literal : Datum → Source
  call : String → Source

-- `INSERT INTO table (columns) VALUES (values) RETURNING returning`
pub record Insert : Type 0 where
  pub table : String
  pub columns : List String
  pub values : List Source
  pub returning : List Item

-- `UPDATE table SET column = $n, … WHERE tests RETURNING returning`
pub record Update : Type 0 where
  pub table : String
  pub assignments : List (String × ℕ)
  pub tests : List Test
  pub returning : List Item

-- The pool of connections, jackc/pgx: an answer of several rows includes the error after the last
-- one, and `none` is pgx.ErrNoRows. `now` is the clock.
pub record Pool (D : Type 0) : Type 0 where
  pub query : Select → List Datum → Act D (List (List Datum))
  pub query_row : Select → List Datum → Act D (Option (List Datum))
  pub query_count : Count → List Datum → Act D ℤ
  pub query_groups : Group → List Datum → Act D (List (List Datum))
  pub exec : Insert → List Datum → Act D (Unit {0})
  pub insert_row : Insert → List Datum → Act D (List Datum)
  pub update_row : Update → List Datum → Act D (Option (List Datum))
  pub now : Act D ℕ

-- pgtype.UUID: `parse` is Set of a string, `print` is AssignTo a string, and `print_name` the same as
-- a native string.
pub record Uuids : Type 0 where
  pub parse : Text → Option Text
  pub print : Text → Text
  pub print_name : Text → String

abbrev pub lift : {D : Type 0} {A : Type 0} → Result A → Act D A
lift r d = (r, d)

abbrev pub scan_error : Error
scan_error = other "cannot scan"

-- `rows.Scan` into a variable of each type.
unfoldable pub as_name : Datum → Result String
as_name (name s) = ok s
as_name _ = err scan_error

unfoldable pub as_text : Datum → Result Text
as_text (text s) = ok s
as_text _ = err scan_error

unfoldable pub as_blob : Datum → Result Text
as_blob (blob s) = ok s
as_blob _ = err scan_error

unfoldable pub as_int : Datum → Result ℤ
as_int (int n) = ok n
as_int _ = err scan_error

unfoldable pub as_float : Datum → Result ℕ
as_float (float n) = ok n
as_float _ = err scan_error

unfoldable pub as_boolean : Datum → Result Bool
as_boolean (boolean b) = ok b
as_boolean _ = err scan_error

unfoldable pub as_timestamp : Datum → Result ℕ
as_timestamp (timestamp t) = ok t
as_timestamp _ = err scan_error

unfoldable pub as_names : Datum → Result (List String)
as_names (names l) = ok l
as_names _ = err scan_error

unfoldable pub as_labels : Datum → Result (List String)
as_labels (labels l) = ok l
as_labels _ = err scan_error

-- Into a json.RawMessage.
unfoldable pub as_json : Datum → Result (Unit {0})
as_json (labels l) = ok tt
as_json (object m) = ok tt
as_json _ = err scan_error

-- Into a pointer.
unfoldable pub as_optional_name : Datum → Result (Option String)
as_optional_name null = ok none
as_optional_name (name s) = ok (some s)
as_optional_name _ = err scan_error

unfoldable pub as_optional_float : Datum → Result (Option ℕ)
as_optional_float null = ok none
as_optional_float (float n) = ok (some n)
as_optional_float _ = err scan_error

-- Into a []byte that is then unmarshalled into a map[string]interface{}, if it is not empty: a number
-- becomes a float64. Texts are UTF-8.
abbrev pub unmarshalled : Value → Value
unmarshalled Value.null = Value.null
unmarshalled (Value.int n) = Value.int (float_int n)
unmarshalled (Value.text s) = Value.text s

unfoldable pub unmarshalled_map : Map String Value → Map String Value
unmarshalled_map [] = []
unmarshalled_map ((key, v) ∷ rest) = (key, unmarshalled v) ∷ unmarshalled_map rest

unfoldable pub as_details : Datum → Result (Map String Value)
unfolding unmarshalled_map
as_details null = ok []
as_details (object m) = ok (unmarshalled_map m)
as_details _ = err scan_error

module _ (u : Uuids) where
  -- Into a string.
  unfoldable pub as_id : Datum → Result Text
  as_id (uuid v) = ok (u.print v)
  as_id _ = err scan_error

  unfoldable pub as_id_name : Datum → Result String
  as_id_name (uuid v) = ok (u.print_name v)
  as_id_name _ = err scan_error

  -- Into a pgtype.UUID, which is assigned where it is present: NULL leaves the empty string.
  unfoldable pub as_uuid : Datum → Result Text
  as_uuid null = ok []
  as_uuid (uuid v) = ok (u.print v)
  as_uuid _ = err scan_error

  unfoldable pub as_uuid_name : Datum → Result String
  as_uuid_name null = ok ""
  as_uuid_name (uuid v) = ok (u.print_name v)
  as_uuid_name _ = err scan_error

  -- `id.Set(s)`, an error where it is no UUID.
  unfoldable pub set_uuid : Text → Result Text
  set_uuid s = elim (u.parse s) [ none ↦ err (other "invalid id") | some v ↦ ok v ]

  unfoldable pub uuid_or_null : Text → Datum
  uuid_or_null s = elim (u.parse s) [ none ↦ null | some v ↦ uuid v ]

-- The loop over `rows.Next()`.
unfoldable pub scan_rows :
    {A : Type 0} → (List Datum → Result A) → List (List Datum) → Result (List A)
scan_rows scan [] = ok []
scan_rows scan (row ∷ rows) = do a ← scan row; rest ← scan_rows scan rows; ok (a ∷ rest)
