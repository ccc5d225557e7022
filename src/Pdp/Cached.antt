-- ===== src/Pdp/Cached.antt =====
-- What the decision cache can and cannot change.
use mathlib.Core.Path.{◌≡⟨◌⟩◌, ◌∎, ap₂}
use poc_dcs.Pdp.{resolve}
use poc_dcs.Common.{
  String, Bool, true, false, ◌&&◌, ◌≡◌, refl, sym, ap, Option, none, some, lookup, string_eq, ◌==◌,
  arith, subst, eq_iff, Bool-cases, inl, inr, pos, if◌then◌else◌,
}
use poc_dcs.Types.{PolicyInput, Decision}
use poc_dcs.Config.{PdpConfig}
use poc_dcs.Runtime.{dcs_enabled}
use poc_dcs.Cache.Ttl.{Entry, stamped}
use poc_dcs.Cache.Ttl.History.{lookup-get, lookup-set, get-hit}
use poc_dcs.World.{Oracle, World, level_enabled, pdp_get, pdp_set}
use poc_dcs.Pdp.{
  Digests, KeyPayload, decision_cache_key, allow_without_dcs, compute, evaluate,
  is_cacheable_action,
}
use poc_dcs.Pdp.Allows.{decide-allow}

-- The information point copies the principal's tenant into the resource.
abbrev pub IsOwnTenant : PolicyInput → Type 0
IsOwnTenant input = input.principal.tenant_id ≡ input.resource.tenant_id

module _ (o : Oracle) (digests : Digests) (cfg : PdpConfig) where
  -- Every cached decision was computed, under either mode, for an input with that key.
  pub record CacheIsSound (w : World) : Type 0 where
    pub computed :
        (key : String) (item : Entry Decision)
        → lookup key w.caches.pdp.store ≡ some item
        → (dcs : Bool) × (input : PolicyInput) × IsOwnTenant input
          × (decision_cache_key digests dcs input ≡ key)
          × (item.value ≡ compute digests cfg dcs input)

  compute-allow :
      (dcs : Bool) (input : PolicyInput)
      → IsOwnTenant input
      → (compute digests cfg dcs input).allow
        ≡ allow_without_dcs cfg input.action input.principal.role
  unfolding compute
  compute-allow true input own =
      ground
        (arith, decide-allow cfg input, eq_iff input.principal.tenant_id input.resource.tenant_id)
  compute-allow false input own = refl

  pdp_get-CacheIsSound :
      (key : String) (w : World) → CacheIsSound w → CacheIsSound (pdp_get o key w).1
  unfolding pdp_get
  pdp_get-CacheIsSound key w h = record {
    computed = λ k item found.
        h.computed k item (lookup-get key (o.clock w.tick) w.caches.pdp k item found);
  }

  Computed : String → Decision → Type 0
  Computed key decision =
      (dcs : Bool) × (input : PolicyInput) × IsOwnTenant input
      × (decision_cache_key digests dcs input ≡ key)
      × (decision ≡ compute digests cfg dcs input)

  Computed-of_written :
      (key k : String) (item written : Entry Decision) (old : Option (Entry Decision))
      → (old ≡ some item → Computed k item.value)
      → Computed key written.value
      → (if key == k then some written else old) ≡ some item
      → Computed k item.value
  Computed-of_written key k item written old before now h = elim (Bool-cases (key == k)) [
    | inl same ↦
        let e = (eq_iff key k).0 same in
        let put : some written ≡ some item = rw same at h in
        let same_item : written ≡ item = cc in
        subst (λ x. Computed x item.value) e (subst (λ i. Computed key i.value) same_item now)
    | inr differs ↦ before (rw differs at h)
  ]

  pdp_set-CacheIsSound :
      (key : String) (decision : Decision) (w : World)
      → Computed key decision
      → CacheIsSound w
      → CacheIsSound (pdp_set o key decision w)
  unfolding pdp_set Computed
  pdp_set-CacheIsSound key decision w own h = record {
    computed = λ k item found.
        Computed-of_written key k item (stamped decision (pos 0) (o.clock w.tick) w.caches.pdp)
          (lookup k w.caches.pdp.store) (h.computed k item) own
          (lookup-set key decision (pos 0) (o.clock w.tick) (o.victim w.tick) w.caches.pdp k item
            found);
  }

  pdp_get-Computed :
      (key : String) (w : World) (decision : Decision)
      → CacheIsSound w
      → (pdp_get o key w).0 ≡ some decision
      → Computed key decision
  unfolding pdp_get Computed
  pdp_get-Computed key w decision h hit =
      let (item, found, value, fresh) = get-hit key (o.clock w.tick) w.caches.pdp decision hit in
      rw (sym value) (h.computed key item found)

  settings-pdp_get : (key : String) (w : World) → (pdp_get o key w).1.settings ≡ w.settings
  unfolding pdp_get
  settings-pdp_get key w = refl

  Computed-compute :
      (dcs : Bool) (input : PolicyInput)
      → IsOwnTenant input
      → Computed (decision_cache_key digests dcs input) (compute digests cfg dcs input)
  unfolding Computed
  Computed-compute dcs input own = (dcs, input, own, refl, refl)

  -- An answer to the request that was computed for a request with the same key, and a sound cache.
  abbrev IsAnswer : String → (Decision × Bool) × World → Type 0
  IsAnswer key answer = Computed key answer.0.0 × CacheIsSound answer.1

  resolve-IsAnswer :
      (input : PolicyInput) (hit : Option Decision) (w : World)
      → IsOwnTenant input
      → CacheIsSound w
      → ((d : Decision)
          → hit ≡ some d
          → Computed (decision_cache_key digests (dcs_enabled w.settings) input) d)
      → IsAnswer (decision_cache_key digests (dcs_enabled w.settings) input) (
          resolve o digests cfg
            (decision_cache_key digests (dcs_enabled w.settings) input)
            input
            hit
            w)
  unfolding resolve
  resolve-IsAnswer input none w own h from_cache =
      let c = Computed-compute (dcs_enabled w.settings) input own in
      (c, pdp_set-CacheIsSound _ _ w c h)
  resolve-IsAnswer input (some d) w own h from_cache = (from_cache d refl, h)

  evaluate-IsAnswer :
      (input : PolicyInput) (w : World)
      → IsOwnTenant input
      → CacheIsSound w
      → IsAnswer
          (decision_cache_key digests (dcs_enabled w.settings) input)
          (evaluate o digests cfg input w)
  unfolding evaluate pdp_get
  evaluate-IsAnswer input w own h =
      let key = decision_cache_key digests (dcs_enabled w.settings) input in
      elim (Bool-cases (level_enabled w 2 && is_cacheable_action input.action)) [
        | inl cacheable ↦ rw cacheable (
            resolve-IsAnswer input (pdp_get o key w).0 (pdp_get o key w).1 own
              (pdp_get-CacheIsSound key w h) (λ d hit. pdp_get-Computed key w d h hit))
        | inr direct ↦ rw direct (Computed-compute (dcs_enabled w.settings) input own, h)
      ]

  -- Where every cached decision was computed for a request of that key, for a resource of its
  -- principal's own tenant, and the key digest has no collision: whatever the mode and the level of
  -- caching, the verdict on a request for a resource of the principal's own tenant is the one of the
  -- configuration.
  pub evaluate-allow :
      (input : PolicyInput) (w : World)
      → ((p q : KeyPayload) → digests.of_key p ≡ digests.of_key q → p ≡ q)
      → IsOwnTenant input
      → CacheIsSound w
      → (evaluate o digests cfg input w).0.0.allow
        ≡ allow_without_dcs cfg input.action input.principal.role
  unfolding Computed decision_cache_key
  evaluate-allow input w no_collision own h =
      let (computed, sound) = evaluate-IsAnswer input w own h in
      let (dcs, cached_for, cached_own, same_key, same) = computed in
      let p = no_collision _ _ same_key in
      (evaluate o digests cfg input w).0.0.allow
      ≡⟨ ap (λ d. d.allow) same ⟩ (compute digests cfg dcs cached_for).allow
      ≡⟨ compute-allow dcs cached_for cached_own ⟩
        allow_without_dcs cfg cached_for.action cached_for.principal.role
      ≡⟨ ap₂ (allow_without_dcs cfg) (ap (λ k. k.action) p) (ap (λ k. k.role) p) ⟩
        allow_without_dcs cfg input.action input.principal.role ∎

  -- Evaluating requests for resources of the principals' own tenants keeps the cache sound.
  pub evaluate-CacheIsSound :
      (input : PolicyInput) (w : World)
      → IsOwnTenant input
      → CacheIsSound w
      → CacheIsSound (evaluate o digests cfg input w).1
  evaluate-CacheIsSound input w own h = (evaluate-IsAnswer input w own h).1
