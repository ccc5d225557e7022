-- ===== src/Pip.antt =====
-- internal/dcs/pip: the policy information point, which builds the input of a decision, and the two
-- stores of field classifications. What a store answers may depend on the moment, not on the caches.
pub mod Tenants
use poc_dcs.Common.{
  String, Text, ℕ, Option, none, some, List, [], ◌∷◌, Map, lookup, insert, string_eq, ◌==◌, eqb,
  length, Result, ok, err, Error, other, ◌&&◌, if◌then◌else◌, Bool,
}
use poc_dcs.Action.{Act, pure, raise, ◌>>=◌}
use poc_dcs.Types.{Principal, RequestContext, FieldMeta, PolicyInput, Classification}
use poc_dcs.Runtime.{dcs_enabled}
use poc_dcs.World.{
  Oracle, World, ClassificationMap, level_enabled, classification_get, classification_set,
}

-- The interface `ClassificationStore`.
abbrev pub ClassificationStore : Type 0
ClassificationStore = String → World → Result ClassificationMap

pub record Config : Type 0 where
  pub env : String
  pub channel : String
  pub purpose : String
  pub device_trust : ℕ
  pub client_ip_header : String

pub record Input : Type 0 where
  pub principal : Principal
  pub action : String
  pub resource_type : String
  pub resource_id : Text
  pub owner_id : Text
  pub labels : List String
  pub request : RequestContext
  pub crypto_meta : Map String (Map String String)

-- A missing key leaves the nil map.
abbrev pub crypto_or_nil : Option (Map String String) → Map String String
crypto_or_nil none = []
crypto_or_nil (some crypto) = crypto

-- The loop over the classifications.
unfoldable pub build_fields :
    Map String (Map String String) → ClassificationMap → Map String FieldMeta
build_fields crypto [] = []
build_fields crypto ((field, cls) ∷ rest) =
    insert field (record { classification = cls; crypto = crypto_or_nil (lookup field crypto) })
      (build_fields crypto rest)

abbrev pub or_default : String → String → String
or_default s fallback = if s == "" then fallback else s

unfoldable pub complete_context : Config → RequestContext → RequestContext
complete_context cfg c = record c {
  channel = or_default c.channel cfg.channel;
  purpose = or_default c.purpose cfg.purpose;
  env = or_default c.env cfg.env;
  device_trust = if eqb c.device_trust 0 then cfg.device_trust else c.device_trust;
}

abbrev pub policy_input : Config → Input → Map String FieldMeta → PolicyInput
policy_input cfg input fields = record {
  principal = input.principal;
  action = input.action;
  resource = record {
    type = input.resource_type;
    id = input.resource_id;
    owner_id = input.owner_id;
    tenant_id = input.principal.tenant_id;
    labels = input.labels;
    fields = fields;
  };
  context = complete_context cfg input.request;
}

module _ (o : Oracle) (store : ClassificationStore) where
  -- The query of the store, and the write of its answer to the cache.
  unfoldable pub query : String → Act World ClassificationMap
  query resource_type w = elim (store resource_type w) [
    | err e ↦ (err e, w)
    | ok rows ↦
        (ok rows, if level_enabled w 1 then classification_set o resource_type rows w else w)
  ]

  unfoldable pub cached_or_query : String → Option ClassificationMap → Act World ClassificationMap
  unfolding query
  cached_or_query resource_type (some cached) w = (ok cached, w)
  cached_or_query resource_type none w = query resource_type w

  unfoldable pub get_classification_map : String → Act World ClassificationMap
  unfolding cached_or_query
  get_classification_map resource_type w =
      if level_enabled w 1
      then (let (hit, w') = classification_get o resource_type w in
          cached_or_query resource_type hit w')
      else query resource_type w

  unfoldable pub build : Config → Input → Act World PolicyInput
  unfolding get_classification_map build_fields complete_context
  build cfg input w =
      if dcs_enabled w.settings
      then (get_classification_map input.resource_type
            >>= (λ classes. pure (policy_input cfg input (build_fields input.crypto_meta classes))))
          w
      else (ok (policy_input cfg input []), w)

-- StaticClassificationStore: a copy of the configured map, empty for an unknown resource.
unfoldable pub static_store : Map String ClassificationMap → ClassificationStore
static_store by_resource resource_type w = elim (lookup resource_type by_resource) [
  | none ↦ ok []
  | some fields ↦ ok fields
]

-- A row of the table of classifications (domain.FieldClassification).
pub record FieldClassification : Type 0 where
  pub resource_type : String
  pub field_name : String
  pub classification : String

unfoldable pub parse_classification : String → Option Classification
parse_classification s =
    if s == "PUBLIC"
    then some "PUBLIC"
    else if s == "INTERNAL"
    then some "INTERNAL"
    else if s == "SENSITIVE"
    then some "SENSITIVE"
    else if s == "PII"
    then some "PII"
    else none

-- The loop over the rows: a row with an unknown classification is skipped.
unfoldable pub collect_rows : List FieldClassification → ClassificationMap → ClassificationMap
unfolding parse_classification
collect_rows [] result = result
collect_rows (row ∷ rows) result =
    collect_rows rows (elim (parse_classification row.classification) [
      | none ↦ result
      | some cls ↦ insert row.field_name cls result
    ])

abbrev pub is_empty_map : ClassificationMap → Bool
is_empty_map m = eqb (length m) 0

-- DBClassificationStore: `repo` is the interface to the database.
unfoldable pub db_store :
    (repo : String → World → Result (List FieldClassification))
    → Option ClassificationStore
    → ClassificationStore
unfolding collect_rows
db_store repo fallback resource_type w = elim (repo resource_type w) [
  | err e ↦ elim fallback [
    | some store ↦ store resource_type w
    | none ↦ err (other "db query failed and no fallback available")
  ]
  | ok rows ↦
      let result = collect_rows rows [] in
      elim fallback [
        | none ↦ ok result
        | some store ↦ if is_empty_map result then store resource_type w else ok result
      ]
]
