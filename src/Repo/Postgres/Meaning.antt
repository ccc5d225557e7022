-- ===== src/Repo/Postgres/Meaning.antt =====
-- What the repositories rely on of PostgreSQL and of pgx: the documented meaning of the statements
-- that they send, on tables of rows. The order of the rows is not used.
use poc_dcs.Common.{
  String, string_eq, Text, ℕ, zero, suc, ◌≤◌, pos, ◌≡◌, ◌⊎◌, Option, none, some, List, [], ◌∷◌, map,
  Map, lookup, ok, length, In, All,
}
use poc_dcs.Repo.Postgres.Sql.{
  Datum, null, text, uuid, int, Item, column, coalesce, Test, Select, Insert, Source, param,
  literal, call, Pool, Uuids,
}

abbrev pub Row : Type 0
Row = Map String Datum

abbrev pub or_null : Option Datum → Datum
or_null none = null
or_null (some v) = v

unfoldable pub cell : String → Row → Datum
unfolding lookup
cell c row = or_null (lookup c row)

abbrev pub or_default : Datum → Datum → Datum
or_default d null = d
or_default d v = v

abbrev pub item_value : Row → Item → Datum
item_value row (column c) = cell c row
item_value row (coalesce c d) = or_default d (cell c row)

abbrev pub project : List Item → Row → List Datum
project items row = map (item_value row) items

-- The argument of `$n`.
abbrev pub arg : ℕ → List Datum → Datum
arg n [] = null
arg zero (v ∷ args) = null
arg (suc zero) (v ∷ args) = v
arg (suc (suc n)) (v ∷ args) = arg (suc n) args

-- `value = argument`: never true of NULL, and a text is converted where the value is a UUID.
abbrev pub Equals : Uuids → Datum → Datum → Type 0
Equals u v null = ⊥
Equals u v (text s) = (v ≡ text s) ⊎ ((w : Text) × (u.parse s ≡ some w) × (v ≡ uuid w))
Equals u v a = v ≡ a

abbrev pub Matches : Uuids → List Datum → Row → List Test → Type 0
Matches u args row tests = All (λ t. Equals u (item_value row t.item) (arg t.param args)) tests

abbrev pub IsGiven : List Datum → Source → Datum → Type 0
IsGiven args (param n) v = v ≡ arg n args
IsGiven args (literal d) v = v ≡ d
IsGiven args (call f) v = Unit

-- The row has in each column the value given for it.
abbrev pub Assigned : List Datum → Row → List String → List Source → Type 0
Assigned args row [] values = Unit
Assigned args row (c ∷ columns) [] = Unit
Assigned args row (c ∷ columns) (v ∷ values) =
    IsGiven args v (cell c row) × Assigned args row columns values

-- A UUID is read back from its print, and the empty string is none.
pub record IsUuid (u : Uuids) : Type 0 where
  pub parse-print : (v : Text) → u.parse (u.print v) ≡ some v
  pub parse_empty : u.parse [] ≡ none

module _ {D : Type 0} (u : Uuids) (pool : Pool D) (tables : D → String → List Row) where
  -- A row of the table that meets the conditions.
  abbrev pub Selected : Select → List Datum → D → Row → Type 0
  Selected s args d row = In row (tables d s.table) × Matches u args row s.tests

  pub record IsPostgres : Type 0 where
    pub now_keeps : (d : D) → tables (pool.now d).1 ≡ tables d
    pub query_sound :
        (s : Select) (args : List Datum) (d : D) (answers : List (List Datum))
        → (pool.query s args d).0 ≡ ok answers
        → (answer : List Datum) → In answer answers
        → (row : Row) × Selected s args d row × (answer ≡ project s.items row)
    pub query_complete :
        (s : Select) (args : List Datum) (d : D) (answers : List (List Datum))
        → (pool.query s args d).0 ≡ ok answers
        → s.limit ≡ none
        → (row : Row) → Selected s args d row
        → In (project s.items row) answers
    pub query_limit :
        (s : Select) (args : List Datum) (d : D) (answers : List (List Datum))
        → (pool.query s args d).0 ≡ ok answers
        → (n k : ℕ) → s.limit ≡ some n
        → arg n args ≡ int (pos k)
        → length answers ≤ k
    pub query_row_found :
        (s : Select) (args : List Datum) (d : D) (answer : List Datum)
        → (pool.query_row s args d).0 ≡ ok (some answer)
        → (row : Row) × Selected s args d row × (answer ≡ project s.items row)
    pub query_row_missing :
        (s : Select) (args : List Datum) (d : D)
        → (pool.query_row s args d).0 ≡ ok none
        → (row : Row) → ¬ (Selected s args d row)
    pub exec_adds :
        (i : Insert) (args : List Datum) (d : D)
        → (pool.exec i args d).0 ≡ ok tt
        → (row : Row) × In row (tables (pool.exec i args d).1 i.table)
          × Assigned args row i.columns i.values
    pub exec_keeps :
        (i : Insert) (args : List Datum) (d : D) (table : String) (row : Row)
        → In row (tables d table)
        → In row (tables (pool.exec i args d).1 table)
    pub exec_only :
        (i : Insert) (args : List Datum) (d : D) (row : Row)
        → In row (tables (pool.exec i args d).1 i.table)
        → ((pool.exec i args d).0 ≡ ok tt) × Assigned args row i.columns i.values
          ⊎ In row (tables d i.table)
    pub insert_adds :
        (i : Insert) (args : List Datum) (d : D) (answer : List Datum)
        → (pool.insert_row i args d).0 ≡ ok answer
        → (row : Row) × In row (tables (pool.insert_row i args d).1 i.table)
          × Assigned args row i.columns i.values
          × (answer ≡ project i.returning row)
