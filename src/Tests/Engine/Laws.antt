-- ===== src/Tests/Engine/Laws.antt =====
-- The database means what its statements say.
use poc_dcs.Common.{
  String, ◌≡◌, refl, ap, subst, ◌⊎◌, inl, inr, arith, none, some, List, [], ◌∷◌, ◌++◌, map, Result,
  ok, err, other, In, In-append, In-append_left, In-append_right, string_eq, Bool-cases, beq_refl,
  lookup-insert, if◌then◌else◌, ◌==◌, length, ◌≤◌,
}
use poc_dcs.Repo.Postgres.Sql.{Datum, Item, Insert}
use poc_dcs.Repo.Postgres.Meaning.{Row, project, Assigned, IsPostgres}
use poc_dcs.Tests.Engine.{
  Database, uuids, dec_assigned, if_yes, chosen, table, up_to, limited, selected, first_of, row_of,
  with_row, inserted, engine,
}
use poc_dcs.Tests.Engine.Rows.{
  chosen_sound, chosen_complete, length-take-le, limited-In, map-In, In-map, length-map,
}

table-with_row :
    (d : Database) (t u : String) (row : Row)
    → table (with_row d t row) u ≡ (if t == u then table d t ++ (row ∷ []) else table d u)
unfolding table
table-with_row d t u row = rw lookup-insert (ground arith)

module _ {A : Type 0} (i : Insert) (args : List Datum) (d : Database) (answer : Row → A) where
  -- An insertion adds its row, or does nothing and fails.
  abbrev row : Row
  row = row_of args i.columns i.values

  Done : Result A × Database → Type 0
  Done out =
      ((out ≡ (ok (answer row), with_row d i.table row)) × Assigned args row i.columns i.values)
      ⊎ (out ≡ (err (other "column given twice"), d))

  inserted-cases : Done (inserted i args d answer)
  unfolding inserted if_yes Done
  inserted-cases = go (dec_assigned args row i.columns i.values)
    where
      go :
          (c : Dec (Assigned args row i.columns i.values))
          → Done (
              if_yes c
                (ok (answer row), with_row d i.table row)
                (err (other "column given twice"), d))
      go (yes a) = inl (refl, a)
      go (no n) = inr refl

  row-In : In row (table (with_row d i.table row) i.table)
  row-In =
      rw (table-with_row d i.table i.table row, beq_refl i.table)
        (In-append_right row (table d i.table) (row ∷ []) (inl refl))

  kept-In : (t : String) (r : Row) → In r (table d t) → In r (table (with_row d i.table row) t)
  kept-In t r h = elim (Bool-cases (i.table == t)) [
    | inl same ↦
        rw (table-with_row d i.table t row, same)
          (In-append_left r (table d i.table) (row ∷ [])
            (rw (← (string_eq.beq_iff i.table t).0 same) at h))
    | inr differs ↦ rw (table-with_row d i.table t row, differs) h
  ]

  only-In :
      (r : Row) → In r (table (with_row d i.table row) i.table) → (row ≡ r) ⊎ In r (table d i.table)
  only-In r h =
      elim (In-append r (table d i.table) (row ∷ [])
        (rw (table-with_row d i.table i.table row, beq_refl i.table) at h)) [
          | inl old ↦ inr old
          | inr new ↦ elim new [ inl e ↦ inl e | inr none_left ↦ elim none_left [ ] ]
        ]

module _ (i : Insert) (args : List Datum) (d : Database) where
  exec_adds :
      (engine.exec i args d).0 ≡ ok tt
      → (row : Row) × In row (table (engine.exec i args d).1 i.table)
        × Assigned args row i.columns i.values
  unfolding engine Done
  exec_adds done = elim (inserted-cases i args d (λ row. tt)) [
    | inl (e, assigned) ↦ (row i args d (λ row. tt), rw e (row-In i args d (λ row. tt)), assigned)
    | inr e ↦ cc (done, ap (λ (o : Result (Unit {0}) × Database). o.0) e)
  ]

  exec_keeps : (t : String) (r : Row) → In r (table d t) → In r (table (engine.exec i args d).1 t)
  unfolding engine Done
  exec_keeps t r h = elim (inserted-cases i args d (λ row. tt)) [
    | inl (e, assigned) ↦ rw e (kept-In i args d (λ row. tt) t r h)
    | inr e ↦ rw e h
  ]

  exec_only :
      (r : Row)
      → In r (table (engine.exec i args d).1 i.table)
      → ((engine.exec i args d).0 ≡ ok tt) × Assigned args r i.columns i.values
        ⊎ In r (table d i.table)
  unfolding engine Done
  exec_only r h = elim (inserted-cases i args d (λ row. tt)) [
    | inl (e, assigned) ↦ elim (only-In i args d (λ row. tt) r (rw e at h)) [
      | inl same ↦ inl (rw e refl, subst (λ x. Assigned args x i.columns i.values) same assigned)
      | inr old ↦ inr old
    ]
    | inr e ↦ inr (rw e at h)
  ]

  insert_adds :
      (answer : List Datum)
      → (engine.insert_row i args d).0 ≡ ok answer
      → (row : Row) × In row (table (engine.insert_row i args d).1 i.table)
        × Assigned args row i.columns i.values
        × (answer ≡ project i.returning row)
  unfolding engine Done
  insert_adds answer done = elim (inserted-cases i args d (project i.returning)) [
    | inl (e, assigned) ↦ (
      row i args d (project i.returning),
      rw e (row-In i args d (project i.returning)),
      assigned,
      cc (done, ap (λ (o : Result (List Datum) × Database). o.0) e),
    )
    | inr e ↦ cc (done, ap (λ (o : Result (List Datum) × Database). o.0) e)
  ]

first-chosen :
    (items : List Item) (rows : List Row) (answer : List Datum)
    → first_of items rows ≡ some answer
    → (row : Row) × In row rows × (answer ≡ project items row)
unfolding first_of
first-chosen items [] answer h = cc h
first-chosen items (r ∷ rows) answer h = (r, inl refl, cc h)

first-none :
    (items : List Item) (rows : List Row) (row : Row) → first_of items rows ≡ none → ¬ (In row rows)
unfolding first_of
first-none items [] row h at = at
first-none items (r ∷ rows) row h at = cc h

pub engine-IsPostgres : IsPostgres uuids engine table
unfolding engine selected limited up_to
engine-IsPostgres = record {
  now_keeps = λ d. refl;
  query_sound = λ s args d answers h answer at.
      let e : map (project s.items) (selected s args d) ≡ answers = cc h in
      let (row, there, is) = map-In s.items (selected s args d) answer (rw e at) in
      let at' = limited-In s.limit args (chosen args s.tests (table d s.table)) row there in
      (row, chosen_sound args s.tests (table d s.table) row at', is);
  query_complete = λ s args d answers h unlimited row (there, matches).
      let e : map (project s.items) (selected s args d) ≡ answers = cc h in
      rw (← e, unlimited)
        (In-map s.items (chosen args s.tests (table d s.table)) row
          (chosen_complete args s.tests (table d s.table) row there matches));
  query_limit = λ s args d answers h n k limit given.
      let e : map (project s.items) (selected s args d) ≡ answers = cc h in
      let rows = chosen args s.tests (table d s.table) in
      let within : length (selected s args d) ≤ k = rw (limit, given) (length-take-le k rows) in
      omega (arith, ap length e, length-map s.items (selected s args d), within);
  query_row_found = λ s args d answer h.
      let e : first_of s.items (chosen args s.tests (table d s.table)) ≡ some answer = cc h in
      let (row, there, is) =
        first-chosen s.items (chosen args s.tests (table d s.table)) answer e in
      (row, chosen_sound args s.tests (table d s.table) row there, is);
  query_row_missing = λ s args d h row (there, matches).
      let e : first_of s.items (chosen args s.tests (table d s.table)) ≡ none = cc h in
      first-none s.items (chosen args s.tests (table d s.table)) row e
        (chosen_complete args s.tests (table d s.table) row there matches);
  exec_adds = λ i args d done. exec_adds i args d done;
  exec_keeps = λ i args d t r h. exec_keeps i args d t r h;
  exec_only = λ i args d r h. exec_only i args d r h;
  insert_adds = λ i args d answer done. insert_adds i args d answer done;
}
