-- ===== src/Repo/Postgres/Films/Unreadable.antt =====
-- GetByID does not read the films that Create inserts.
use poc_dcs.Common.{String, Text, ◌≡◌, ◌≢◌, sym, ap, ◌∙◌, List, [], ◌∷◌, ok, In, arith}
use poc_dcs.Action.{bind-ok_at}
use poc_dcs.Repo.Films.{FilmRecord}
use poc_dcs.Repo.Postgres.Sql.{Datum, object, Pool, Uuids, as_labels}
use poc_dcs.Repo.Postgres.Scan.{scan_film, scan_film_row}
use poc_dcs.Repo.Postgres.Meaning.{Row, project, IsPostgres}
use poc_dcs.Repo.Postgres.Films.{create, insert_film, film_args, film_items, film_of_id}

module _ (u : Uuids) where
  scan_film_row-labels :
      (id tenant title time marks created : Datum) (film : FilmRecord)
      → scan_film_row u (id ∷ tenant ∷ title ∷ time ∷ marks ∷ created ∷ []) ≡ ok film
      → marks ≢ object []
  unfolding scan_film_row as_labels
  scan_film_row-labels id tenant title time marks created film h e = ground arith

  module _ {D : Type 0} (pool : Pool D) (tables : D → String → List Row)
      (pg : IsPostgres u pool tables) where
    -- A film that Create answers with is a row of the table that a list of films shows as that film,
    -- and that GetByID cannot scan: its labels are a JSON object, not a list.
    pub created_unreadable :
        (tenant : String) (title ct : Text) (d : D) (film : FilmRecord)
        → (create u pool tenant title ct d).0 ≡ ok film
        → (row : Row) × In row (tables (create u pool tenant title ct d).1 "films")
          × (scan_film u (project film_items row) ≡ ok film)
          × ((read : FilmRecord) → scan_film_row u (project film_of_id.items row) ≢ ok read)
    unfolding create
    created_unreadable tenant title ct d film made =
        let args = film_args tenant title ct in
        let (answer, inserted, scanned) = bind-ok_at (pool.insert_row insert_film args) _ d made in
        let (row, there, (_, (_, (_, (_, (marks, _))))), shown) =
          pg.insert_adds insert_film args d answer inserted in
        (
          row,
          rw inserted there,
          ap (scan_film u) (sym shown) ∙ scanned,
          λ read h. scan_film_row-labels _ _ _ _ _ _ read h marks,
        )
