-- ===== src/Repo/Postgres/Halls/Meets.antt =====
-- The repository of halls over PostgreSQL is a store of halls, which spells each identifier as a UUID
-- is printed.
use poc_dcs.Common.{String, List}
use poc_dcs.Repo.Postgres.Sql.{Pool, Uuids}
use poc_dcs.Repo.Postgres.Meaning.{Row, IsUuid, IsPostgres}
use poc_dcs.Repo.Postgres.Halls.{postgres_halls}
use poc_dcs.Service.Halls.Contract.{IsHallStore}
use poc_dcs.Repo.Postgres.Halls.Holding.{Kept, Holds}
use poc_dcs.Repo.Postgres.Halls.Reading.{list_sound, list_complete, find_sound, find_complete}
use poc_dcs.Repo.Postgres.Halls.Creating.{create_holds, create_keeps, create_only}

module _ (u : Uuids) {D : Type 0} (pool : Pool D) (tables : D → String → List Row) where
  module _ (is_uuid : IsUuid u) (pg : IsPostgres u pool tables) where
    -- The repository over PostgreSQL meets the contract of a store of halls: it holds the rows of
    -- its table, spells each identifier as a UUID is printed, finds the hall of a tenant that an
    -- identifier spells, and lists those of a tenant.
    pub postgres_halls-IsHallStore : IsHallStore (postgres_halls u pool) (Holds u tables) (Kept u)
    postgres_halls-IsHallStore = record {
      create_holds = create_holds u pool tables pg;
      create_keeps = create_keeps u pool tables pg;
      create_only = create_only u pool tables pg;
      find_sound = find_sound u pool tables is_uuid pg;
      find_complete = find_complete u pool tables is_uuid pg;
      list_sound = list_sound u pool tables is_uuid pg;
      list_complete = list_complete u pool tables is_uuid pg;
    }
