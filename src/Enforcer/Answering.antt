-- ===== src/Enforcer/Answering.antt =====
-- Where the store of classifications answers, the enforcer decides.
use poc_dcs.Common.{
  String, ◌≡◌, refl, ok, some, none, Option, Bool-cases, inl, inr, [], Option-cases, Map, lookup,
  string_eq,
}
use poc_dcs.Action.Answers.{Answers, pure-Answers, bind-Answers}
use poc_dcs.Types.{Principal, RequestContext}
use poc_dcs.Runtime.{dcs_enabled}
use poc_dcs.World.{World, ClassificationMap, level_enabled, classification_get}
use poc_dcs.Pip
use poc_dcs.Pip.{
  ClassificationStore, static_store, query, cached_or_query, get_classification_map, build,
  policy_input, build_fields,
}
use poc_dcs.Enforcer.{
  Parts, decide_on, pdp_decision, authorize_on, authorization, enforce_hall_read, HallReadInput,
  shape_hall, asking,
}

-- The store knows a classification, which may be empty, for every type of resource.
abbrev pub IsTotal : ClassificationStore → Type 0
IsTotal store = (type : String) (w : World) → (rows : ClassificationMap) × (store type w ≡ ok rows)

pub static_store-IsTotal :
    (by_resource : Map String ClassificationMap) → IsTotal (static_store by_resource)
unfolding static_store
static_store-IsTotal by_resource type w = elim (Option-cases (lookup type by_resource)) [
  | inl missing ↦ ([], rw (missing, static_store) refl)
  | inr (rows, found) ↦ (rows, rw (found, static_store) refl)
]

module _ (e : Parts) (total : IsTotal e.store) where
  query-Answers : (type : String) → Answers (query e.oracle e.store type)
  unfolding query
  query-Answers type = record {
    answer = λ w. let (rows, known) = total type w in (rows, rw (known, query) refl);
  }

  cached_or_query-Answers :
      (type : String) (hit : Option ClassificationMap)
      → Answers (cached_or_query e.oracle e.store type hit)
  unfolding cached_or_query
  cached_or_query-Answers type (some cached) = pure-Answers cached
  cached_or_query-Answers type none = query-Answers type

  get_classification_map-Answers :
      (type : String) → Answers (get_classification_map e.oracle e.store type)
  unfolding get_classification_map
  get_classification_map-Answers type = record {
    answer = λ w. elim (Bool-cases (level_enabled w 1)) [
      | inl cached ↦
          let (hit, w') = classification_get e.oracle type w in
          rw cached ((cached_or_query-Answers type hit).answer w')
      | inr direct ↦ rw direct ((query-Answers type).answer w)
    ];
  }

  build-Answers : (input : Pip.Input) → Answers (build e.oracle e.store e.pip_config input)
  unfolding build
  build-Answers input = record {
    answer = λ w. elim (Bool-cases (dcs_enabled w.settings)) [
      | inl on ↦ rw on (
          (bind-Answers (get_classification_map e.oracle e.store input.resource_type)
              (get_classification_map-Answers input.resource_type)
              (λ classes.
                pure-Answers (
                  policy_input e.pip_config input (build_fields input.crypto_meta classes)))).answer
            w)
      | inr off ↦ rw off (policy_input e.pip_config input [], refl)
    ];
  }

  pub decide_on-Answers : (input : Pip.Input) → Answers (decide_on e input)
  unfolding decide_on pdp_decision
  decide_on-Answers input =
      bind-Answers (build e.oracle e.store e.pip_config input) (build-Answers input)
        (λ built. record { answer = λ w. (_, refl) })

  pub authorize_on-Answers : (input : Pip.Input) → Answers (authorize_on e input)
  unfolding authorize_on
  authorize_on-Answers input =
      bind-Answers (decide_on e input) (decide_on-Answers input)
        (λ d. pure-Answers (authorization d))

  pub enforce_hall_read-Answers :
      (principal : Principal) (request : RequestContext) (hall : HallReadInput)
      → Answers (enforce_hall_read e principal request hall)
  unfolding enforce_hall_read
  enforce_hall_read-Answers principal request hall =
      bind-Answers
        (decide_on e
          (asking principal request "hall.read" "hall" hall.hall_id hall.owner_user_id []))
        (decide_on-Answers
          (asking principal request "hall.read" "hall" hall.hall_id hall.owner_user_id []))
        (λ d. pure-Answers (shape_hall d.field_actions hall))
