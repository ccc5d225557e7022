-- ===== src/Tests/Engine/Runs.antt =====
-- What the database does with an insertion that fits, and with one row.
use poc_dcs.Common.{◌≡◌, refl, List, [], ◌∷◌, ok, string_eq}
use poc_dcs.Repo.Postgres.Sql.{Datum, Test, Insert}
use poc_dcs.Repo.Postgres.Meaning.{Row, project, Matches, Assigned}
use poc_dcs.Tests.Engine.{
  Database, uuids, dec_matches, dec_assigned, if_yes, chosen, row_of, with_row, inserted, engine,
}

if_yes-eq : {A : Type 0} {B : Type 0} (c : Dec A) (x y : B) → A → if_yes c x y ≡ x
unfolding if_yes
if_yes-eq (yes a) x y h = refl
if_yes-eq (no n) x y h = elim (n h) [ ]

-- What the database does with an insertion that fits, and with one row that meets the conditions.
pub exec_done :
    (i : Insert) (args : List Datum) (d : Database)
    → Assigned args (row_of args i.columns i.values) i.columns i.values
    → engine.exec i args d ≡ (ok tt, with_row d i.table (row_of args i.columns i.values))
unfolding engine inserted
exec_done i args d h = if_yes-eq (dec_assigned args _ i.columns i.values) _ _ h

pub insert_row_done :
    (i : Insert) (args : List Datum) (d : Database)
    → Assigned args (row_of args i.columns i.values) i.columns i.values
    → engine.insert_row i args d ≡ (
      ok (project i.returning (row_of args i.columns i.values)),
      with_row d i.table (row_of args i.columns i.values),
    )
unfolding engine inserted
insert_row_done i args d h = if_yes-eq (dec_assigned args _ i.columns i.values) _ _ h

pub one_chosen :
    (args : List Datum) (tests : List Test) (row : Row)
    → Matches uuids args row tests
    → chosen args tests (row ∷ []) ≡ row ∷ []
unfolding chosen
one_chosen args tests row h = if_yes-eq (dec_matches args row tests) _ _ h
