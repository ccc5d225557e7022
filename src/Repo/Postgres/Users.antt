-- ===== src/Repo/Postgres/Users.antt =====
-- internal/repository/postgres/user_repository.go.
use poc_dcs.Common.{String, Option, none, some, List, [], ◌∷◌, Result, err, not_found}
use poc_dcs.Action.{Act, ◌>>=◌}
use poc_dcs.Auth.Login.{User}
use poc_dcs.Repo.Postgres.Sql.{Datum, name, column, Select, equals, Pool, Uuids, lift}
use poc_dcs.Repo.Postgres.Scan.{scan_user}

abbrev pub user_of_name : Select
user_of_name = record {
  items =
      column "id"
      ∷ column "tenant_id"
      ∷ column "username"
      ∷ column "password_hash"
      ∷ column "role"
      ∷ column "labels"
      ∷ column "created_at"
      ∷ [];
  table = "users";
  tests = equals "tenant_id" 1 ∷ equals "username" 2 ∷ [];
  order = [];
  limit = none;
}

module _ (u : Uuids) {D : Type 0} (pool : Pool D) where
  abbrev pub scan_or_not_found : Option (List Datum) → Result User
  scan_or_not_found none = err not_found
  scan_or_not_found (some row) = scan_user u row

  unfoldable pub get_by_username : String → String → Act D User
  get_by_username tenant username = do
    row ← pool.query_row user_of_name (name tenant ∷ name username ∷ [])
    lift (scan_or_not_found row)
