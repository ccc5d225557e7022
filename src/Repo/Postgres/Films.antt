-- ===== src/Repo/Postgres/Films.antt =====
-- internal/repository/postgres/film_repository.go, but for CreateFromDomain, which nothing calls.
pub mod Unreadable
use poc_dcs.Common.{String, Text, Option, none, some, List, [], ◌∷◌, Result, ok, err, other}
use poc_dcs.Action.{Act, ◌>>=◌}
use poc_dcs.Repo.Films.{FilmRecord}
use poc_dcs.Repo.Postgres.Sql.{
  Datum, name, text, object, Item, column, Select, Insert, Update, equals, Order, desc, param,
  Source, literal, call, Pool, Uuids, lift, scan_rows,
}
use poc_dcs.Repo.Postgres.Scan.{scan_film, scan_film_row}
use poc_dcs.Service.Films.{FilmRepository}

abbrev pub film_items : List Item
film_items = column "id" ∷ column "tenant_id" ∷ column "title" ∷ column "time_elapsed_ct" ∷ []

abbrev pub films_of_tenant : Select
films_of_tenant = record {
  items = film_items;
  table = "films";
  tests = equals "tenant_id" 1 ∷ [];
  order = desc "created_at" ∷ [];
  limit = none;
}

abbrev pub film_of_id : Select
film_of_id = record {
  items =
      column "id"
      ∷ column "tenant_id"
      ∷ column "title"
      ∷ column "time_elapsed_ct"
      ∷ column "labels"
      ∷ column "created_at"
      ∷ [];
  table = "films";
  tests = equals "tenant_id" 1 ∷ equals "id" 2 ∷ [];
  order = [];
  limit = none;
}

-- The labels of a new film are the text '{}', an empty JSON object.
abbrev pub insert_film : Insert
insert_film = record {
  table = "films";
  columns = "id" ∷ "tenant_id" ∷ "title" ∷ "time_elapsed_ct" ∷ "labels" ∷ "created_at" ∷ [];
  values =
      call "gen_random_uuid" ∷ param 1 ∷ param 2 ∷ param 3 ∷ literal (object []) ∷ call "now" ∷ [];
  returning = film_items;
}

abbrev pub film_args : String → (title ct : Text) → List Datum
film_args tenant title ct = name tenant ∷ text title ∷ text ct ∷ []

abbrev pub update_film : Update
update_film = record {
  table = "films";
  assignments = ("time_elapsed_ct", 1) ∷ [];
  tests = equals "tenant_id" 2 ∷ equals "id" 3 ∷ [];
  returning = film_items;
}

abbrev pub or_no_film : {A : Type 0} → (List Datum → Result A) → Option (List Datum) → Result A
or_no_film scan none = err (other "film not found")
or_no_film scan (some row) = scan row

module _ (u : Uuids) {D : Type 0} (pool : Pool D) where
  unfoldable pub list_by_tenant : String → Act D (List FilmRecord)
  list_by_tenant tenant = do
    rows ← pool.query films_of_tenant (name tenant ∷ [])
    lift (scan_rows (scan_film u) rows)

  unfoldable pub get_by_id : String → Text → Act D FilmRecord
  get_by_id tenant film_id = do
    row ← pool.query_row film_of_id (name tenant ∷ text film_id ∷ [])
    lift (or_no_film (scan_film_row u) row)

  unfoldable pub create : String → Text → Text → Act D FilmRecord
  create tenant title ct = do
    row ← pool.insert_row insert_film (film_args tenant title ct)
    lift (scan_film u row)

  unfoldable pub update_time_ciphertext : String → Text → Text → Act D FilmRecord
  update_time_ciphertext tenant film_id ct = do
    row ← pool.update_row update_film (text ct ∷ name tenant ∷ text film_id ∷ [])
    lift (or_no_film (scan_film u) row)

  abbrev pub postgres_films : FilmRepository D
  postgres_films = record {
    list_by_tenant = list_by_tenant;
    update_time_ciphertext = update_time_ciphertext;
    create = create;
  }
