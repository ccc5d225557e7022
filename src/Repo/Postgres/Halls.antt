-- ===== src/Repo/Postgres/Halls.antt =====
-- internal/repository/postgres/hall_repository.go. The service leaves the labels of a hall nil and its
-- time of creation zero.
pub mod Holding
pub mod Reading
pub mod Creating
pub mod Meets
use poc_dcs.Common.{String, Text, ℕ, ℤ, Option, none, some, List, [], ◌∷◌, Result, ok}
use poc_dcs.Action.{Act, ◌>>=◌, map_result}
use poc_dcs.Repo.Postgres.Scan.{scan_hall_record, scan_hall}
use poc_dcs.Repo.Halls.{Hall, HallRecord}
use poc_dcs.Repo.Postgres.Sql.{
  Datum, name, text, labels, timestamp, Item, column, uuid, Select, Count, Insert, equals, Order,
  desc, param, Pool, Uuids, lift, scan_error, as_name, as_text, as_uuid, as_labels, as_timestamp,
  set_uuid, scan_rows,
}
use poc_dcs.Service.Halls.{HallRepository}

abbrev pub halls_of_tenant : Select
halls_of_tenant = record {
  items =
      column "id"
      ∷ column "tenant_id"
      ∷ column "name"
      ∷ column "owner_user_id"
      ∷ column "current_film_id"
      ∷ [];
  table = "halls";
  tests = equals "tenant_id" 1 ∷ [];
  order = desc "created_at" ∷ [];
  limit = none;
}

abbrev pub insert_hall : Insert
insert_hall = record {
  table = "halls";
  columns =
      "tenant_id" ∷ "id" ∷ "name" ∷ "owner_user_id" ∷ "current_film_id" ∷ "labels" ∷ "created_at"
      ∷ [];
  values = param 1 ∷ param 2 ∷ param 3 ∷ param 4 ∷ param 5 ∷ param 6 ∷ param 7 ∷ [];
  returning = [];
}

abbrev pub spectators_of_hall : Count
spectators_of_hall = record {
  table = "spectators";
  tests = equals "tenant_id" 1 ∷ equals "hall_id" 2 ∷ [];
}

abbrev pub hall_of_id : Select
hall_of_id = record {
  items =
      column "id"
      ∷ column "tenant_id"
      ∷ column "name"
      ∷ column "owner_user_id"
      ∷ column "current_film_id"
      ∷ column "labels"
      ∷ column "created_at"
      ∷ [];
  table = "halls";
  tests = equals "tenant_id" 1 ∷ equals "id" 2 ∷ [];
  order = [];
  limit = none;
}

abbrev pub hall_args : Hall → (id owner film : Text) → ℕ → List Datum
hall_args hall id owner film now =
    name hall.tenant_id
    ∷ uuid id
    ∷ text hall.name
    ∷ uuid owner
    ∷ uuid film
    ∷ labels []
    ∷ timestamp now
    ∷ []

module _ (u : Uuids) where
  -- `pgx.ErrNoRows` is no hall and no error.
  abbrev pub scan_found : Option (List Datum) → Result (Option Hall)
  scan_found none = ok none
  scan_found (some row) = map_result some (scan_hall u row)

  module _ {D : Type 0} (pool : Pool D) where
    unfoldable pub list_by_tenant : String → Act D (List HallRecord)
    list_by_tenant tenant = do
      rows ← pool.query halls_of_tenant (name tenant ∷ [])
      lift (scan_rows (scan_hall_record u) rows)

    unfoldable pub create : Hall → Act D (Unit {0})
    create hall = do
      created_at ← pool.now
      id ← lift (set_uuid u hall.id)
      owner ← lift (set_uuid u hall.owner_user_id)
      film ← lift (set_uuid u hall.current_film_id)
      pool.exec insert_hall (hall_args hall id owner film created_at)

    unfoldable pub count_spectators : String → Text → Act D ℤ
    count_spectators tenant hall_id = do
      id ← lift (set_uuid u hall_id)
      pool.query_count spectators_of_hall (name tenant ∷ uuid id ∷ [])

    unfoldable pub find_by_id : String → Text → Act D (Option Hall)
    find_by_id tenant hall_id = do
      id ← lift (set_uuid u hall_id)
      row ← pool.query_row hall_of_id (name tenant ∷ uuid id ∷ [])
      lift (scan_found row)

    abbrev pub postgres_halls : HallRepository D
    postgres_halls = record {
      list_by_tenant = list_by_tenant;
      create = create;
      count_spectators = count_spectators;
      find_by_id = find_by_id;
    }
