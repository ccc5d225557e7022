-- ===== src/Repo/Postgres/Schema/Readers.antt =====
-- Each variable of a scan takes the values of its column.
use poc_dcs.Common.{
  string_eq, ◌==◌, lookup, Bool-cases, subst, String, Text, ℕ, ℤ, Bool, ◌≡◌, refl, inl, inr, true,
  false, Option, none, some, List, [], ◌∷◌, ok, Result, ◌>>=◌, Map,
}
use poc_dcs.Pep.Payload.{Value}
use poc_dcs.Repo.Postgres.Sql.{
  Datum, Uuids, as_name, as_text, as_int, as_float, as_boolean, as_timestamp, as_names, as_details,
  unmarshalled_map, as_json, as_optional_name, as_optional_float, as_id, as_id_name, as_uuid,
  as_uuid_name,
}
use poc_dcs.Repo.Postgres.Meaning.{Row, cell, or_default}
use poc_dcs.Repo.Postgres.Schema.{Columns, FitsRow, HasType, Fits, Column, SqlType}

abbrev pub IsOk : {A : Type 0} → Result A → Type 0
IsOk {A} r = (a : A) × (r ≡ ok a)

-- A step that gives a value, and steps from each value.
pub then-IsOk :
    {A : Type 0} {B : Type 0} {m : Result A} {f : A → Result B}
    → IsOk m
    → ((a : A) → IsOk (f a))
    → IsOk (m >>= f)
then-IsOk {f = f} (a, e) k = rw e (k a)

-- The value of a column by its name.
pub fits :
    (columns : Columns) (row : Row)
    → FitsRow columns row
    → (c : String) {column : Column} → lookup c columns ≡ some column
    → Fits column (cell c row)
unfolding lookup
fits [] row h c e = cc e
fits ((k, first) ∷ columns) row (here, rest) c {column} e = elim (Bool-cases (k == c)) [
  | inl same ↦
      let found : first ≡ column = cc (rw same at e) in
      subst (λ name. Fits column (cell name row)) ((string_eq.beq_iff k c).0 same)
        (subst (λ t. Fits t (cell k row)) found here)
  | inr other ↦ fits columns row rest c (rw other at e)
]

abbrev pub must : SqlType → Column
must t = record { type = t; not_null = true }

abbrev pub may : SqlType → Column
may t = record { type = t; not_null = false }

pub name_scanned : (v : Datum) → Fits (must SqlType.named) v → (s : String) × (as_name v ≡ ok s)
unfolding as_name
name_scanned _ (inl HasType.named) = (_, refl)
name_scanned v (inr (_, e)) = cc e

pub text_scanned : (v : Datum) → Fits (must SqlType.bytes) v → (s : Text) × (as_text v ≡ ok s)
unfolding as_text
text_scanned _ (inl HasType.bytes) = (_, refl)
text_scanned v (inr (_, e)) = cc e

pub int_scanned : (v : Datum) → Fits (must SqlType.integer) v → (n : ℤ) × (as_int v ≡ ok n)
unfolding as_int
int_scanned _ (inl HasType.integer) = (_, refl)
int_scanned v (inr (_, e)) = cc e

pub bigint_scanned : (v : Datum) → Fits (must SqlType.bigint) v → (n : ℤ) × (as_int v ≡ ok n)
unfolding as_int
bigint_scanned _ (inl HasType.bigint) = (_, refl)
bigint_scanned v (inr (_, e)) = cc e

pub boolean_scanned :
    (v : Datum) → Fits (must SqlType.boolean) v → (b : Bool) × (as_boolean v ≡ ok b)
unfolding as_boolean
boolean_scanned _ (inl HasType.boolean) = (_, refl)
boolean_scanned v (inr (_, e)) = cc e

pub time_scanned :
    (v : Datum) → Fits (must SqlType.timestamptz) v → (t : ℕ) × (as_timestamp v ≡ ok t)
unfolding as_timestamp
time_scanned _ (inl HasType.timestamptz) = (_, refl)
time_scanned v (inr (_, e)) = cc e

pub names_scanned :
    (v : Datum) → Fits (must SqlType.text_array) v → (l : List String) × (as_names v ≡ ok l)
unfolding as_names
names_scanned _ (inl HasType.text_array) = (_, refl)
names_scanned v (inr (_, e)) = cc e

pub json_scanned : (v : Datum) → Fits (must SqlType.jsonb) v → (as_json v ≡ ok tt)
unfolding as_json
json_scanned _ (inl HasType.labels) = refl
json_scanned _ (inl HasType.object) = refl
json_scanned v (inr (_, e)) = cc e

pub details_scanned :
    (v : Datum) (m : Map String Value)
    → v ≡ Datum.object m
    → (d : Map String Value) × (as_details v ≡ ok d)
unfolding as_details
details_scanned v m e = (unmarshalled_map m, rw e refl)

pub optional_name_scanned :
    (v : Datum) → Fits (may SqlType.named) v → (o : Option String) × (as_optional_name v ≡ ok o)
unfolding as_optional_name
optional_name_scanned _ (inl HasType.named) = (_, refl)
optional_name_scanned v (inr (e, _)) = (none, rw e refl)

pub default_name_scanned :
    (v : Datum) (s : String)
    → Fits (may SqlType.named) v
    → (t : String) × (as_name (or_default (Datum.name s) v) ≡ ok t)
unfolding as_name
default_name_scanned _ s (inl HasType.named) = (_, refl)
default_name_scanned v s (inr (e, _)) = (s, rw e refl)

pub optional_float_scanned :
    (v : Datum) → Fits (may SqlType.double) v → (o : Option ℕ) × (as_optional_float v ≡ ok o)
unfolding as_optional_float
optional_float_scanned _ (inl HasType.double) = (_, refl)
optional_float_scanned v (inr (e, _)) = (none, rw e refl)

pub default_float_scanned :
    (v : Datum) (n : ℕ)
    → Fits (may SqlType.double) v
    → (k : ℕ) × (as_float (or_default (Datum.float n) v) ≡ ok k)
unfolding as_float
default_float_scanned _ n (inl HasType.double) = (_, refl)
default_float_scanned v n (inr (e, _)) = (n, rw e refl)

module _ (u : Uuids) where
  pub id_scanned : (v : Datum) → Fits (must SqlType.uuid) v → (s : Text) × (as_id u v ≡ ok s)
  unfolding as_id
  id_scanned _ (inl HasType.uuid) = (_, refl)
  id_scanned v (inr (_, e)) = cc e

  pub id_name_scanned :
      (v : Datum) → Fits (must SqlType.uuid) v → (s : String) × (as_id_name u v ≡ ok s)
  unfolding as_id_name
  id_name_scanned _ (inl HasType.uuid) = (_, refl)
  id_name_scanned v (inr (_, e)) = cc e

  pub uuid_scanned :
      (b : Bool) (v : Datum)
      → Fits (record { type = SqlType.uuid; not_null = b }) v
      → (s : Text) × (as_uuid u v ≡ ok s)
  unfolding as_uuid
  uuid_scanned b _ (inl HasType.uuid) = (_, refl)
  uuid_scanned b v (inr (e, _)) = ([], rw e refl)

  pub uuid_name_scanned :
      (v : Datum) → Fits (may SqlType.uuid) v → (s : String) × (as_uuid_name u v ≡ ok s)
  unfolding as_uuid_name
  uuid_name_scanned _ (inl HasType.uuid) = (_, refl)
  uuid_name_scanned v (inr (e, _)) = ("", rw e refl)
