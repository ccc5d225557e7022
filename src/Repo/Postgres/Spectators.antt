-- ===== src/Repo/Postgres/Spectators.antt =====
-- internal/repository/postgres/spectator_repository.go. The service leaves the labels of a spectator nil
-- and its time of creation zero.
pub mod Finding
use poc_dcs.Common.{String, Text, ℕ, ℤ, none, List, [], ◌∷◌}
use poc_dcs.Action.{Act, ◌>>=◌}
use poc_dcs.Repo.Spectators.{Spectator}
use poc_dcs.Repo.Postgres.Sql.{
  Datum, name, text, blob, labels, timestamp, uuid, Item, column, Select, Count, Insert, equals,
  Order, desc, param, Pool, Uuids, lift, set_uuid, scan_rows,
}
use poc_dcs.Repo.Postgres.Scan.{scan_spectator}
use poc_dcs.Repo.Postgres.Halls.{spectators_of_hall}
use poc_dcs.Service.Spectators.{SpectatorRepository}

abbrev pub insert_spectator : Insert
insert_spectator = record {
  table = "spectators";
  columns =
      "tenant_id" ∷ "id" ∷ "hall_id" ∷ "name_ct" ∷ "age_ct" ∷ "external_id_ct"
      ∷ "external_id_lookup" ∷ "labels" ∷ "created_at" ∷ [];
  values =
      param 1 ∷ param 2 ∷ param 3 ∷ param 4 ∷ param 5 ∷ param 6 ∷ param 7 ∷ param 8 ∷ param 9 ∷ [];
  returning = [];
}

abbrev pub spectators_of_lookup : Select
spectators_of_lookup = record {
  items =
      column "tenant_id"
      ∷ column "id"
      ∷ column "hall_id"
      ∷ column "name_ct"
      ∷ column "age_ct"
      ∷ column "external_id_ct"
      ∷ column "external_id_lookup"
      ∷ column "labels"
      ∷ column "created_at"
      ∷ [];
  table = "spectators";
  tests = equals "tenant_id" 1 ∷ equals "external_id_lookup" 2 ∷ [];
  order = desc "created_at" ∷ [];
  limit = none;
}

abbrev pub spectator_args : Spectator → (id hall : Text) → ℕ → List Datum
spectator_args spectator id hall now =
    name spectator.tenant_id
    ∷ uuid id
    ∷ uuid hall
    ∷ text spectator.name_ct
    ∷ text spectator.age_ct
    ∷ text spectator.external_id_ct
    ∷ blob spectator.external_id_lookup
    ∷ labels []
    ∷ timestamp now
    ∷ []

module _ (u : Uuids) {D : Type 0} (pool : Pool D) where
  unfoldable pub create : Spectator → Act D (Unit {0})
  create spectator = do
    created_at ← pool.now
    id ← lift (set_uuid u spectator.id)
    hall_id ← lift (set_uuid u spectator.hall_id)
    pool.exec insert_spectator (spectator_args spectator id hall_id created_at)

  unfoldable pub find_by_external_id_lookup : String → Text → Act D (List Spectator)
  find_by_external_id_lookup tenant digest = do
    rows ← pool.query spectators_of_lookup (name tenant ∷ blob digest ∷ [])
    lift (scan_rows (scan_spectator u) rows)

  -- The statement is that of CountSpectators.
  unfoldable pub count_by_hall : String → Text → Act D ℤ
  count_by_hall tenant hall_id = do
    id ← lift (set_uuid u hall_id)
    pool.query_count spectators_of_hall (name tenant ∷ uuid id ∷ [])

  abbrev pub postgres_spectators : SpectatorRepository D
  postgres_spectators = record {
    create = create;
    find_by_external_id_lookup = find_by_external_id_lookup;
  }
