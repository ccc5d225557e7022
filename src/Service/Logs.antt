-- ===== src/Service/Logs.antt =====
-- internal/service/audit_service.go and perf_service.go, with PerfSummary of internal/domain and the
-- interfaces of internal/repository. A nil repository or enforcer is `none`.
pub mod Guarded
use poc_dcs.Common.{
  String, ℕ, zero, ℤ, pos, negsuc, Bool, not, Option, none, some, List, [], ok, err, forbidden,
  invalid_input, dcs_not_configured, string_eq, ◌==◌, if◌then◌else◌,
}
use poc_dcs.Action.{Act, pure, raise, ◌>>=◌}
use poc_dcs.Strings.{trim_space}
use poc_dcs.Types.{Principal, RequestContext}
use poc_dcs.Enforcer.{Parts, AuthorizationDecision, evaluate_audit_read, evaluate_perf_read}
use poc_dcs.Service.System.{System, AuditLog, PerfLog, on_world, on_store}

pub record AuditLogRepository (R : Type 0) : Type 0 where
  pub create : AuditLog → Act R (Unit {0})
  pub list : String → ℤ → Act R (List AuditLog)

pub record AuditService (R : Type 0) : Type 0 where
  pub repo : Option (AuditLogRepository R)
  pub enforcer : Option Parts

pub record PerfSummary : Type 0 where
  pub action : String
  pub dcs_enabled : Bool
  pub cache_level : ℤ
  pub avg_total_ms : Option ℕ
  pub count : ℕ

pub record PerfLogRepository (R : Type 0) : Type 0 where
  pub create : PerfLog → Act R (Unit {0})
  pub list : String → ℤ → Option String → String → Act R (List PerfLog)
  pub summary : String → Option String → Option ℤ → Bool → String → Act R (List PerfSummary)

pub record PerfService (R : Type 0) : Type 0 where
  pub repo : Option (PerfLogRepository R)
  pub enforcer : Option Parts
  pub source : String

module _ {R : Type 0} where
  -- Through a nil service, or one without a repository, nothing is written.
  abbrev pub write_to : Option (AuditLogRepository R) → AuditLog → Act (System R) (Unit {0})
  write_to none log = pure tt
  write_to (some repo) log = on_store (repo.create log)

  unfoldable pub write_audit : Option (AuditService R) → AuditLog → Act (System R) (Unit {0})
  write_audit none log = pure tt
  write_audit (some s) log = write_to s.repo log

  abbrev pub stored_audits :
      Option (AuditLogRepository R) → Principal → ℤ → Act (System R) (List AuditLog)
  stored_audits none principal limit = pure []
  stored_audits (some repo) principal limit = on_store (repo.list principal.tenant_id limit)

  -- After the decision of the enforcer.
  abbrev pub if_allowed : {A : Type 0} → AuthorizationDecision → Act (System R) A → Act (System R) A
  if_allowed decision answer = if not decision.allow then raise forbidden else answer

  abbrev pub audits_under :
      Option Parts
      → Principal
      → RequestContext
      → Act (System R) (List AuditLog)
      → Act (System R) (List AuditLog)
  audits_under none principal request answer = answer
  audits_under (some e) principal request answer = do
    decision ← on_world (evaluate_audit_read e principal request)
    if_allowed decision answer

  unfoldable pub list_audits :
      AuditService R → Principal → RequestContext → ℤ → Act (System R) (List AuditLog)
  list_audits s principal request limit =
      audits_under s.enforcer principal request (stored_audits s.repo principal limit)

unfoldable pub normalize_perf_source : String → String
unfolding trim_space
normalize_perf_source value = if trim_space value == "" then "unknown" else trim_space value

-- `log.Source = …`, where it is empty.
unfoldable pub sourced : String → PerfLog → PerfLog
unfolding normalize_perf_source
sourced source log =
    if log.source == "" then record log { source = normalize_perf_source source } else log

unfoldable pub effective_source : String → Option String → String
unfolding normalize_perf_source trim_space
effective_source own none = normalize_perf_source own
effective_source own (some source) =
    if trim_space source == "" then normalize_perf_source own else source

unfoldable pub effective_limit : ℤ → ℤ
effective_limit (pos zero) = pos 200
effective_limit (negsuc n) = pos 200
effective_limit limit = limit

module _ {R : Type 0} (s : PerfService R) where
  abbrev pub measured_by : Option (PerfLogRepository R) → PerfLog → Act (System R) (Unit {0})
  measured_by none log = raise invalid_input
  measured_by (some repo) log = on_store (repo.create (sourced s.source log))

  unfoldable pub write_perf : PerfLog → Act (System R) (Unit {0})
  unfolding sourced
  write_perf log = measured_by s.repo log

  module _ (principal : Principal) (request : RequestContext) where
    -- Without an enforcer there is no answer.
    abbrev pub perfs_under : {A : Type 0} → Option Parts → Act (System R) A → Act (System R) A
    perfs_under none answer = raise dcs_not_configured
    perfs_under (some e) answer = do
      decision ← on_world (evaluate_perf_read e principal request)
      if_allowed decision answer

    abbrev pub stored_perfs :
        Option (PerfLogRepository R)
        → ℤ
        → Option String
        → Option String
        → Act (System R) (List PerfLog)
    stored_perfs none limit action source = raise invalid_input
    stored_perfs (some repo) limit action source = on_store (
        repo.list principal.tenant_id (effective_limit limit) action
          (effective_source s.source source))

    unfoldable pub list_perfs : ℤ → Option String → Option String → Act (System R) (List PerfLog)
    unfolding effective_limit effective_source
    list_perfs limit action source =
        perfs_under s.enforcer (stored_perfs s.repo limit action source)

    abbrev pub stored_summary :
        Option (PerfLogRepository R)
        → Option String
        → Option ℤ
        → Bool
        → Option String
        → Act (System R) (List PerfSummary)
    stored_summary none action level all_levels source = raise invalid_input
    stored_summary (some repo) action level all_levels source = on_store (
        repo.summary principal.tenant_id action level all_levels (effective_source s.source source))

    unfoldable pub summarize :
        Option String → Option ℤ → Bool → Option String → Act (System R) (List PerfSummary)
    unfolding effective_source
    summarize action level all_levels source =
        perfs_under s.enforcer (stored_summary s.repo action level all_levels source)
