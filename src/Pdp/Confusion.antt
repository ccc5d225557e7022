-- ===== src/Pdp/Confusion.antt =====
-- The cache key leaves out the tenant and the identity of the resource.
use poc_dcs.Common.{Text}
use poc_dcs.Common.{
  String, Bool, true, false, ◌&&◌, ◌≡◌, ◌≢◌, ◌≤◌, ◌+◌, suc, ap, ◌∙◌, none, some, string_eq, arith,
  eq_iff, pos,
}
use poc_dcs.Types.{PolicyInput, Decision}
use poc_dcs.Config.{PdpConfig}
use poc_dcs.Runtime.{dcs_enabled}
use poc_dcs.Cache.Ttl
use poc_dcs.Cache.Ttl.History.{get-set_self, default_ttl-get}
use poc_dcs.World.{Oracle, World, level_enabled, pdp_get, pdp_set}
use poc_dcs.Pdp.{Digests, decision_cache_key, decide, compute, evaluate, is_cacheable_action}
use poc_dcs.Pdp.Allows.{decide-allow}

-- The same request, for a resource of another tenant and with another identity.
abbrev pub elsewhere : String → Text → PolicyInput → PolicyInput
elsewhere tenant id input = record input {
  resource = record input.resource { tenant_id = tenant; id = id };
}

module _ (o : Oracle) (digests : Digests) (cfg : PdpConfig) where
  abbrev after_miss : String → Decision → World → World
  after_miss key d w = pdp_set o key d (pdp_get o key w).1

  pdp_get-after_miss :
      (key : String) (d : Decision) (w : World)
      → o.clock (suc (suc w.tick)) ≤ o.clock (suc w.tick) + w.caches.pdp.default_ttl
      → (pdp_get o key (after_miss key d w)).0 ≡ some d
  unfolding pdp_get pdp_set
  pdp_get-after_miss key d w in_time =
      let t = (Ttl.get key (o.clock w.tick) w.caches.pdp).1 in
      ap (λ r. r.0)
        (get-set_self key d (pos 0) (o.clock (suc w.tick)) (o.victim (suc w.tick))
          (o.clock (suc (suc w.tick))) t)
      ∙ ground (arith, default_ttl-get key (o.clock w.tick) w.caches.pdp)

  evaluate_of_miss :
      (input : PolicyInput) (w : World)
      → (level_enabled w 2 && is_cacheable_action input.action) ≡ true
      → (pdp_get o (decision_cache_key digests (dcs_enabled w.settings) input) w).0 ≡ none
      → (evaluate o digests cfg input w).1
        ≡ after_miss
            (decision_cache_key digests (dcs_enabled w.settings) input)
            (compute digests cfg (dcs_enabled w.settings) input)
            w
  unfolding evaluate pdp_get
  evaluate_of_miss input w cacheable missed = rw (cacheable, missed)

  evaluate_of_hit :
      (input : PolicyInput) (w : World) (d : Decision)
      → (level_enabled w 2 && is_cacheable_action input.action) ≡ true
      → (pdp_get o (decision_cache_key digests (dcs_enabled w.settings) input) w).0 ≡ some d
      → (evaluate o digests cfg input w).0 ≡ (d, true)
  unfolding evaluate
  evaluate_of_hit input w d cacheable hit = rw (cacheable, hit)

  compute_of_on :
      {dcs : Bool} (input : PolicyInput)
      → dcs ≡ true
      → (decide cfg input).allow ≡ true
      → (compute digests cfg dcs input).allow ≡ true
  unfolding compute
  compute_of_on input on allowed = rw on allowed

  -- The verdict on the second of two requests in a row.
  abbrev pub answered_after : PolicyInput → PolicyInput → World → Bool
  answered_after first next w =
      let (answer, w') = evaluate o digests cfg first w in
      let (answer', w'') = evaluate o digests cfg next w' in answer'.0.allow

  -- A request for a resource of another tenant, which the policy refuses, is allowed from the cache
  -- if the same principal was allowed the same action on a resource of its own just before, with
  -- the DCS on and the decision cache enabled.
  pub evaluate_confuses_tenants :
      (input : PolicyInput) (w : World) (tenant : String) (id : Text)
      → (level_enabled w 2 && is_cacheable_action input.action) ≡ true
      → dcs_enabled w.settings ≡ true
      → (decide cfg input).allow ≡ true
      → input.principal.tenant_id ≢ tenant
      → (pdp_get o (decision_cache_key digests (dcs_enabled w.settings) input) w).0 ≡ none
      → o.clock (suc (suc w.tick)) ≤ o.clock (suc w.tick) + w.caches.pdp.default_ttl
      → (answered_after input (elsewhere tenant id input) w ≡ true)
        × ((decide cfg (elsewhere tenant id input)).allow ≡ false)
  unfolding decision_cache_key pdp_get pdp_set level_enabled
  evaluate_confuses_tenants input w tenant id cacheable on allowed foreign missed in_time =
      let key = decision_cache_key digests (dcs_enabled w.settings) input in
      let fresh = compute digests cfg (dcs_enabled w.settings) input in
      let second =
        evaluate_of_hit (elsewhere tenant id input) (after_miss key fresh w) fresh cacheable
          (pdp_get-after_miss key fresh w in_time) in
      (
        ap (λ v. (evaluate o digests cfg (elsewhere tenant id input) v).0.0.allow)
              (evaluate_of_miss input w cacheable missed)
            ∙ ap (λ a. a.0.allow) second
            ∙ compute_of_on input on allowed,
        ground (
          arith,
          decide-allow cfg (elsewhere tenant id input),
          eq_iff input.principal.tenant_id tenant,
        ),
      )
