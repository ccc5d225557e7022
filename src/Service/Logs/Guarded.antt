-- ===== src/Service/Logs/Guarded.antt =====
-- Who reads the logs, and what is asked of their store.
use poc_dcs.Common.{
  String, bytes, ℕ, zero, suc, ℤ, pos, negsuc, ◌≡◌, refl, sym, ap, ◌∙◌, subst, Option, none, some,
  List, [], ok, forbidden, inl, inr, true, string_eq, ◌⊎◌, Bool,
}
use poc_dcs.Action.{Act, pure, raise, bind-ok_at, unless-ok, ◌>>=◌}
use poc_dcs.Types.{Principal, RequestContext}
use poc_dcs.World.{World}
use poc_dcs.Pdp.Allows.{Permits, permits_of_allow}
use poc_dcs.Pip
use poc_dcs.Enforcer.{
  Parts, AuthorizationDecision, asking, decide_on, authorization, evaluate_audit_read,
  evaluate_perf_read,
}
use poc_dcs.Enforcer.Authorize.{NoCollision, IsSound, decide_on-allow}
use poc_dcs.Service.System.{System, AuditLog, PerfLog, on_world}
use poc_dcs.Service.Logs.{
  AuditService, AuditLogRepository, PerfService, PerfLogRepository, PerfSummary, audits_under,
  stored_audits, list_audits, if_allowed, perfs_under, stored_perfs, list_perfs, stored_summary,
  summarize, effective_source, effective_limit,
}

-- The decision of a reading of the logs, without its hash.
abbrev unhashed : Parts → Pip.Input → Act World AuthorizationDecision
unhashed e asked = decide_on e asked >>= λ d. pure (record (authorization d) { decision_hash = "" })

module _ (e : Parts) where
  unhashed-Permits :
      (asked : Pip.Input) (w : World) (a : AuthorizationDecision)
      → NoCollision e.digests
      → IsSound e w
      → (unhashed e asked w).0 ≡ ok a
      → a.allow ≡ true
      → Permits e.pdp_config asked.action asked.principal.role
  unhashed-Permits asked w a no_collision sound h allowed =
      let (d, decided, made) =
        bind-ok_at (decide_on e asked) (λ d. pure (record (authorization d) { decision_hash = "" }))
          w h in
      let same : record (authorization d) { decision_hash = "" } ≡ a = cc made in
      permits_of_allow e.pdp_config asked.action asked.principal.role (
        sym (decide_on-allow e asked w d no_collision sound decided)
        ∙ ap (λ x. x.allow) same
        ∙ allowed)

  -- An answer that waits for a decision is given only where the decision allows it.
  guarded-Permits :
      {R : Type 0} {A : Type 0} (asked : Pip.Input) (answer : Act (System R) A) (s : System R)
      {a : A}
      → NoCollision e.digests
      → IsSound e s.world
      → ((on_world (unhashed e asked) >>= λ decision. if_allowed decision answer) s).0 ≡ ok a
      → Permits e.pdp_config asked.action asked.principal.role
        × ((answer (on_world {R = R} (unhashed e asked) s).1).0 ≡ ok a)
  guarded-Permits {R} asked answer s {a} no_collision sound h =
      let (decision, decided, rest) =
        bind-ok_at (on_world (unhashed e asked)) (λ decision. if_allowed decision answer) s h in
      let s1 : System R = (on_world (unhashed e asked) s).1 in
      let (allowed, answered) =
        unless-ok decision.allow (raise forbidden) answer s1 (λ failed. cc) rest in
      (unhashed-Permits asked s.world decision no_collision sound decided allowed, answered)

pub effective_limit_positive : (limit : ℤ) → (n : ℕ) × (effective_limit limit ≡ pos (suc n))
unfolding effective_limit
effective_limit_positive (pos zero) = (199, refl)
effective_limit_positive (pos (suc n)) = (n, refl)
effective_limit_positive (negsuc n) = (199, refl)

-- What comes from the store of a tenant under the limit and the source in force.
pub record IsListed {R : Type 0} (s : PerfService R) (tenant : String) (limit : ℤ)
    (action source : Option String) (store : R) (rows : List PerfLog) : Type 0 where
  pub repo : PerfLogRepository R
  pub configured : s.repo ≡ some repo
  pub bound : ℕ
  pub bounded : effective_limit limit ≡ pos (suc bound)
  pub listed :
      (repo.list tenant (pos (suc bound)) action (effective_source s.source source) store).0
      ≡ ok rows

module _ {R : Type 0} (s : PerfService R) (principal : Principal) (request : RequestContext) where
  stored_perfs-IsListed :
      (repo : Option (PerfLogRepository R)) (limit : ℤ) (action source : Option String)
      (sys : System R) (rows : List PerfLog)
      → s.repo ≡ repo
      → (stored_perfs s principal request repo limit action source sys).0 ≡ ok rows
      → IsListed s principal.tenant_id limit action source sys.store rows
  stored_perfs-IsListed none limit action source sys rows same h = cc
  stored_perfs-IsListed (some repo) limit action source sys rows same h =
      let (bound, bounded) = effective_limit_positive limit in
      record {
        repo = repo;
        configured = same;
        bound = bound;
        bounded = bounded;
        listed =
            subst
              (λ l.
                (repo.list principal.tenant_id l action (effective_source s.source source)
                  sys.store).0
                ≡ ok rows)
              bounded h;
      }

  -- Performance logs are listed only if the configuration permits `perf.read` to the role; they are
  -- those of the tenant, under a limit of at least one.
  pub list_perfs_guarded :
      (e : Parts) (limit : ℤ) (action source : Option String) (sys : System R) (rows : List PerfLog)
      → s.enforcer ≡ some e
      → NoCollision e.digests
      → IsSound e sys.world
      → (list_perfs s principal request limit action source sys).0 ≡ ok rows
      → Permits e.pdp_config "perf.read" principal.role
        × IsListed s principal.tenant_id limit action source sys.store rows
  unfolding list_perfs evaluate_perf_read
  list_perfs_guarded e limit action source sys rows configured no_collision sound h =
      let answer = stored_perfs s principal request s.repo limit action source in
      let (permitted, answered) =
        guarded-Permits e (asking principal request "perf.read" "perf" (bytes "perf") [] []) answer
          sys no_collision sound
          (subst (λ o. (perfs_under s principal request o answer sys).0 ≡ ok rows) configured h) in
      (
        permitted,
        stored_perfs-IsListed s.repo limit action source
            (on_world (evaluate_perf_read e principal request) sys).1 rows refl answered,
      )

  -- A summary is given only if the configuration permits `perf.read` to the role.
  pub summarize_guarded :
      (e : Parts) (action : Option String) (level : Option ℤ) (all_levels : Bool)
      (source : Option String) (sys : System R) (rows : List PerfSummary)
      → s.enforcer ≡ some e
      → NoCollision e.digests
      → IsSound e sys.world
      → (summarize s principal request action level all_levels source sys).0 ≡ ok rows
      → Permits e.pdp_config "perf.read" principal.role
  unfolding summarize evaluate_perf_read
  summarize_guarded e action level all_levels source sys rows configured no_collision sound h =
      let answer = stored_summary s principal request s.repo action level all_levels source in
      let (permitted, answered) =
        guarded-Permits e (asking principal request "perf.read" "perf" (bytes "perf") [] []) answer
          sys no_collision sound
          (subst (λ o. (perfs_under s principal request o answer sys).0 ≡ ok rows) configured h) in
      permitted

stored_audits-ok :
    {R : Type 0} (repo : Option (AuditLogRepository R)) (principal : Principal) (limit : ℤ)
    (sys : System R) (logs : List AuditLog)
    → (stored_audits repo principal limit sys).0 ≡ ok logs
    → ((repo ≡ none) × (logs ≡ []))
      ⊎ ((r : AuditLogRepository R) × (repo ≡ some r)
          × ((r.list principal.tenant_id limit sys.store).0 ≡ ok logs))
stored_audits-ok none principal limit sys logs h = inl (refl, cc)
stored_audits-ok (some r) principal limit sys logs h = inr (r, refl, h)

module _ {R : Type 0} (s : AuditService R) (principal : Principal) (request : RequestContext) where
  -- Audit entries are listed only if the configuration permits `audit.read` to the role; they are
  -- those of the tenant, or none where there is no repository.
  pub list_audits_guarded :
      (e : Parts) (limit : ℤ) (sys : System R) (logs : List AuditLog)
      → s.enforcer ≡ some e
      → NoCollision e.digests
      → IsSound e sys.world
      → (list_audits s principal request limit sys).0 ≡ ok logs
      → Permits e.pdp_config "audit.read" principal.role
        × (((s.repo ≡ none) × (logs ≡ []))
            ⊎ ((repo : AuditLogRepository R) × (s.repo ≡ some repo)
                × ((repo.list principal.tenant_id limit sys.store).0 ≡ ok logs)))
  unfolding list_audits evaluate_audit_read
  list_audits_guarded e limit sys logs configured no_collision sound h =
      let answer = stored_audits s.repo principal limit in
      let (permitted, answered) =
        guarded-Permits e (asking principal request "audit.read" "audit" (bytes "audit") [] [])
          answer sys no_collision sound
          (subst (λ o. (audits_under o principal request answer sys).0 ≡ ok logs) configured h) in
      (
        permitted,
        stored_audits-ok s.repo principal limit
            (on_world (evaluate_audit_read e principal request) sys).1 logs answered,
      )
