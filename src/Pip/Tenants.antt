-- ===== src/Pip/Tenants.antt =====
-- What every policy input has, whatever the store and the cache hold.
use poc_dcs.Common.{◌⊎◌, subst}
use poc_dcs.Action.{state-bind-pure}
use poc_dcs.Common.{
  String, ◌≡◌, refl, sym, ◌∙◌, ok, [], Bool-cases, inl, inr, arith, true, string_eq,
}
use poc_dcs.Action.{map_result-eq-ok, result-bind-pure}
use poc_dcs.Types.{PolicyInput}
use poc_dcs.Runtime.{dcs_enabled}
use poc_dcs.World.{Oracle, World, ClassificationMap, classification_get, classification_set}
use poc_dcs.Pip.{
  Config, Input, ClassificationStore, build, build_fields, policy_input, query, cached_or_query,
  get_classification_map,
}

-- The information point has read nothing but the settings and its own cache.
pub record LeavesDecisions (w w' : World) : Type 0 where
  pub settings : w'.settings ≡ w.settings
  pub pdp : w'.caches.pdp ≡ w.caches.pdp

module _ (o : Oracle) (store : ClassificationStore) where
  query-LeavesDecisions : (type : String) (w : World) → LeavesDecisions w (query o store type w).1
  unfolding query classification_set
  query-LeavesDecisions type w = ground arith

  get_classification_map-LeavesDecisions :
      (type : String) (w : World) → LeavesDecisions w (get_classification_map o store type w).1
  unfolding get_classification_map cached_or_query classification_get
  get_classification_map-LeavesDecisions type w = ground (
    arith,
    query-LeavesDecisions type w,
    query-LeavesDecisions type (classification_get o type w).1,
  )

  -- Building an input changes neither the settings nor the cache of decisions.
  pub build-LeavesDecisions :
      (cfg : Config) (input : Input) (w : World) → LeavesDecisions w (build o store cfg input w).1
  unfolding build
  build-LeavesDecisions cfg input w = elim (Bool-cases (dcs_enabled w.settings)) [
    | inr off ↦ rw (off, build) (record { settings = refl; pdp = refl })
    | inl on ↦
        rw (on, build)
          (subst (LeavesDecisions w)
            (sym (
              state-bind-pure (get_classification_map o store input.resource_type)
                (λ classes. policy_input cfg input (build_fields input.crypto_meta classes)) w))
            (get_classification_map-LeavesDecisions input.resource_type w))
  ]

  -- An input that answers a question.
  pub record IsFor (input : Input) (w : World) (built : PolicyInput) : Type 0 where
    pub principal : built.principal ≡ input.principal
    pub action : built.action ≡ input.action
    pub own : built.principal.tenant_id ≡ built.resource.tenant_id
    pub fields : (dcs_enabled w.settings ≡ true) ⊎ (built.resource.fields ≡ [])

  -- Every input that is built concerns the principal and the action that were asked for, and a
  -- resource of the principal's own tenant; unless the DCS is on, it names no field.
  pub build-IsFor :
      (cfg : Config) (input : Input) (w : World) (built : PolicyInput)
      → (build o store cfg input w).0 ≡ ok built
      → IsFor input w built
  unfolding build
  build-IsFor cfg input w built h = elim (Bool-cases (dcs_enabled w.settings)) [
    | inr off ↦
        let same : policy_input cfg input [] ≡ built = ground arith in
        subst (IsFor input w) same
          (record { principal = refl; action = refl; own = refl; fields = inr refl })
    | inl on ↦
        let (classes, answered, same) =
          map_result-eq-ok
            (λ (classes : ClassificationMap).
              policy_input cfg input (build_fields input.crypto_meta classes))
            (get_classification_map o store input.resource_type w).0
            (sym (result-bind-pure (get_classification_map o store input.resource_type) _ w)
              ∙ (rw on at h)) in
        subst (IsFor input w) same
          (record { principal = refl; action = refl; own = refl; fields = inl on })
  ]
