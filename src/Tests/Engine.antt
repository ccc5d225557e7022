-- ===== src/Tests/Engine.antt =====
-- A database that keeps its tables as lists of rows, and runs the statements of the repositories.
mod Rows
mod Runs
mod Laws
mod Witnesses
mod Fitting
use poc_dcs.Common.{
  String, Text, ℕ, zero, suc, ℤ, pos, negsuc, ◌≡◌, ◌≢◌, refl, ap, sym, subst, ◌∙◌, ◌⊎◌, inl, inr,
  arith, Option, none, some, List, [], ◌∷◌, ◌++◌, map, Map, Result, ok, err, other, In, In-append,
  In-append_left, In-append_right, lookup, insert, string_eq, Bool-cases, beq_refl, Bool, true,
  false, not, lookup-insert, if◌then◌else◌, ◌==◌, length, ◌≤◌,
}
use native.Mathlib.Decide.{ℕ_discrete}
use poc_dcs.Pep.Payload.{Value}
use poc_dcs.Repo.Postgres.Sql.{
  Datum, null, name, text, uuid, int, Item, Test, Select, Insert, Source, param, literal, call,
  Pool, Uuids,
}
use poc_dcs.Repo.Postgres.Meaning.{
  Row, cell, item_value, project, arg, Equals, Matches, IsGiven, Assigned, IsUuid, IsPostgres,
}

String-discrete : Discrete String
String-discrete s t = elim (Bool-cases (s == t)) [
  | inl same ↦ yes ((string_eq.beq_iff s t).0 same)
  | inr differs ↦ no (λ e. cc (differs, (string_eq.beq_iff s t).1 e))
]

ℤ-discrete : Discrete ℤ
ℤ-discrete = hlevel ℕ_discrete

Datum-discrete : Discrete Datum
Datum-discrete = hlevel (ℕ_discrete, String-discrete)

-- Identifiers are UUIDs of their own bytes, and are printed after a letter.
abbrev pub uuids : Uuids
uuids = record {
  parse = λ s. elim s [ [] ↦ none | c ∷ rest ↦ some rest ];
  print = λ v. b'u' ∷ v;
  print_name = λ v. "u";
}

pub uuids-IsUuid : IsUuid uuids
uuids-IsUuid = record { parse-print = λ v. refl; parse_empty = refl }

dec_parsed : (s : Text) (v : Datum) → Dec ((w : Text) × (uuids.parse s ≡ some w) × (v ≡ uuid w))
dec_parsed [] v = no (λ (w, e, _). cc e)
dec_parsed (c ∷ s) v = elim (Datum-discrete v (uuid s)) [
  | yes e ↦ yes (s, refl, e)
  | no n ↦ no (λ (w, e, e'). n (cc (e, e')))
]

dec_or : {A : Type 0} {B : Type 0} → Dec A → Dec B → Dec (A ⊎ B)
dec_or (yes a) d = yes (inl a)
dec_or (no n) (yes b) = yes (inr b)
dec_or (no n) (no m) = no (λ e. elim e [ inl a ↦ n a | inr b ↦ m b ])

dec_and : {A : Type 0} {B : Type 0} → Dec A → Dec B → Dec (A × B)
dec_and (yes a) (yes b) = yes (a, b)
dec_and (yes a) (no m) = no (λ p. m p.1)
dec_and (no n) d = no (λ p. n p.0)

dec_equals : (v a : Datum) → Dec (Equals uuids v a)
dec_equals v null = no (λ h. h)
dec_equals v (text s) = dec_or (Datum-discrete v (text s)) (dec_parsed s v)
dec_equals v (name s) = Datum-discrete v (name s)
dec_equals v (Datum.blob s) = Datum-discrete v (Datum.blob s)
dec_equals v (uuid s) = Datum-discrete v (uuid s)
dec_equals v (int n) = Datum-discrete v (int n)
dec_equals v (Datum.float n) = Datum-discrete v (Datum.float n)
dec_equals v (Datum.boolean b) = Datum-discrete v (Datum.boolean b)
dec_equals v (Datum.timestamp t) = Datum-discrete v (Datum.timestamp t)
dec_equals v (Datum.names l) = Datum-discrete v (Datum.names l)
dec_equals v (Datum.labels l) = Datum-discrete v (Datum.labels l)
dec_equals v (Datum.object m) = Datum-discrete v (Datum.object m)

dec_matches :
    (args : List Datum) (row : Row) (tests : List Test) → Dec (Matches uuids args row tests)
dec_matches args row [] = yes tt
dec_matches args row (t ∷ tests) =
    dec_and (dec_equals (item_value row t.item) (arg t.param args)) (dec_matches args row tests)

dec_given : (args : List Datum) (source : Source) (v : Datum) → Dec (IsGiven args source v)
dec_given args (param n) v = Datum-discrete v (arg n args)
dec_given args (literal d) v = Datum-discrete v d
dec_given args (call f) v = yes tt

dec_assigned :
    (args : List Datum) (row : Row) (columns : List String) (values : List Source)
    → Dec (Assigned args row columns values)
dec_assigned args row [] values = yes tt
dec_assigned args row (c ∷ columns) [] = yes tt
dec_assigned args row (c ∷ columns) (v ∷ values) =
    dec_and (dec_given args v (cell c row)) (dec_assigned args row columns values)

-- The rows that meet the conditions.
if_yes : {A : Type 0} {B : Type 0} → Dec A → B → B → B
if_yes (yes a) x y = x
if_yes (no n) x y = y

pub chosen : List Datum → List Test → List Row → List Row
chosen args tests [] = []
chosen args tests (row ∷ rows) =
    if_yes (dec_matches args row tests) (row ∷ chosen args tests rows) (chosen args tests rows)

abbrev pub Database : Type 0
Database = Map String (List Row)

abbrev or_none : Option (List Row) → List Row
or_none none = []
or_none (some rows) = rows

pub table : Database → String → List Row
unfolding lookup
table d t = or_none (lookup t d)

pub take : ℕ → List Row → List Row
take zero rows = []
take (suc n) [] = []
take (suc n) (row ∷ rows) = row ∷ take n rows

up_to : Datum → List Row → List Row
up_to (int (pos k)) rows = take k rows
up_to _ rows = []

pub limited : Option ℕ → List Datum → List Row → List Row
limited none args rows = rows
limited (some n) args rows = up_to (arg n args) rows

selected : Select → List Datum → Database → List Row
unfolding table limited
selected s args d = limited s.limit args (chosen args s.tests (table d s.table))

first_of : List Item → List Row → Option (List Datum)
first_of items [] = none
first_of items (row ∷ rows) = some (project items row)

value_of : List Datum → Source → Datum
value_of args (param n) = arg n args
value_of args (literal d) = d
value_of args (call f) = if f == "now" then Datum.timestamp 0 else uuid []

-- The new row, with a number for the column that counts.
pub row_of : List Datum → List String → List Source → Row
row_of args (c ∷ columns) (v ∷ values) = (c, value_of args v) ∷ row_of args columns values
row_of args _ _ = ("id", int (pos 1)) ∷ []

abbrev pub with_row : Database → String → Row → Database
with_row d t row = insert t (table d t ++ (row ∷ [])) d

inserted : {A : Type 0} → Insert → List Datum → Database → (Row → A) → Result A × Database
inserted i args d answer =
    let row = row_of args i.columns i.values in
    if_yes (dec_assigned args row i.columns i.values) (ok (answer row), with_row d i.table row)
      (err (other "column given twice"), d)

pub engine : Pool Database
unfolding selected first_of chosen inserted
engine = record {
  query = λ s args d. (ok (map (project s.items) (selected s args d)), d);
  query_row = λ s args d. (ok (first_of s.items (chosen args s.tests (table d s.table))), d);
  query_count = λ c args d. (ok (pos (length (chosen args c.tests (table d c.table)))), d);
  query_groups = λ g args d. (ok [], d);
  exec = λ i args d. inserted i args d (λ row. tt);
  insert_row = λ i args d. inserted i args d (λ row. project i.returning row);
  update_row = λ i args d. (ok none, d);
  now = λ d. (ok 0, d);
}
