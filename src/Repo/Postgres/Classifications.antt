-- ===== src/Repo/Postgres/Classifications.antt =====
-- internal/repository/postgres/classification_repository.go. A nil pool is `none`.
use poc_dcs.Common.{String, Option, none, some, List, [], ◌∷◌, other}
use poc_dcs.Action.{Act, raise, ◌>>=◌}
use poc_dcs.Pip.{FieldClassification}
use poc_dcs.Repo.Postgres.Sql.{
  Datum, name, Item, column, Select, equals, asc, Pool, lift, scan_rows,
}
use poc_dcs.Repo.Postgres.Scan.{scan_classification}

abbrev pub classification_items : List Item
classification_items = column "resource_type" ∷ column "field_name" ∷ column "classification" ∷ []

abbrev pub classifications_of_type : Select
classifications_of_type = record {
  items = classification_items;
  table = "field_classification";
  tests = equals "resource_type" 1 ∷ [];
  order = asc "field_name" ∷ [];
  limit = none;
}

abbrev pub all_classifications : Select
all_classifications = record {
  items = classification_items;
  table = "field_classification";
  tests = [];
  order = asc "resource_type" ∷ asc "field_name" ∷ [];
  limit = none;
}

module _ {D : Type 0} where
  abbrev pub classifications_from :
      Option (Pool D) → Select → List Datum → Act D (List FieldClassification)
  classifications_from none statement args = raise (other "database pool not available")
  classifications_from (some pool) statement args = do
    rows ← pool.query statement args
    lift (scan_rows scan_classification rows)

  unfoldable pub get_by_resource_type : Option (Pool D) → String → Act D (List FieldClassification)
  get_by_resource_type pool resource_type =
      classifications_from pool classifications_of_type (name resource_type ∷ [])

  unfoldable pub get_all : Option (Pool D) → Act D (List FieldClassification)
  get_all pool = classifications_from pool all_classifications []
