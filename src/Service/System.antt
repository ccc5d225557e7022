-- ===== src/Service/System.antt =====
-- What the services of internal/service share: the state that a request can change, the entries of
-- internal/domain/audit_log.go and perf_log.go, and the writing of both logs.
pub mod Kept
use poc_dcs.Common.{
  String, Text, ℕ, ℤ, Bool, Option, none, List, [], ◌∷◌, ◌++◌, Map, Error, forbidden, true, false,
  ok, if◌then◌else◌,
}
use poc_dcs.Action.{Act}
use poc_dcs.Types.{Principal, RequestContext}
use poc_dcs.Runtime.{dcs_enabled}
use poc_dcs.World.{World}
use poc_dcs.Pep.Payload.{Value}

pub record AuditLog : Type 0 where
  pub request_id : String
  pub tenant_id : String
  pub subject_user_id : String
  pub subject_role : String
  pub action : String
  pub resource_type : String
  pub resource_id : Text
  pub outcome : String
  pub decision_hash : String
  pub fields_decrypted : List String
  pub fields_masked : List String
  pub fields_denied : List String
  pub details : Map String Value

-- The durations that a request's perf context has measured, in microseconds.
pub record Timings : Type 0 where
  pub total_ms : ℕ
  pub pip_ms : Option ℕ
  pub pdp_ms : Option ℕ
  pub kms_ms : Option ℕ
  pub db_ms : Option ℕ

pub record PerfLog : Type 0 where
  pub request_id : String
  pub tenant_id : String
  pub subject_user_id : String
  pub subject_role : String
  pub source : String
  pub action : String
  pub resource_type : String
  pub dcs_enabled : Bool
  pub cache_level : ℤ
  pub timings : Timings

-- What a request can change: the shared world, the store, and the entries given to the writers of
-- the two logs.
pub record System (R : Type 0) : Type 0 where
  pub world : World
  pub store : R
  pub trail : List AuditLog
  pub measures : List PerfLog

-- Whether there is a writer of each log, and what the perf context measures: time is a parameter.
pub record Logging : Type 0 where
  pub audited : Bool
  pub measured : Bool
  pub timings : World → Timings

abbrev pub on_world : {R : Type 0} {A : Type 0} → Act World A → Act (System R) A
on_world m s = let (r, w) = m s.world in (r, record s { world = w })

abbrev pub on_store : {R : Type 0} {A : Type 0} → Act R A → Act (System R) A
on_store m s = let (r, store) = m s.store in (r, record s { store = store })

abbrev pub is_forbidden : Error → Bool
is_forbidden forbidden = true
is_forbidden _ = false

-- An entry without a hash, fields and details.
abbrev pub audit_log :
    Principal
    → RequestContext
    → (action type : String) → (id : Text) → (outcome : String) → AuditLog
audit_log principal request action type id outcome = record {
  request_id = request.request_id;
  tenant_id = principal.tenant_id;
  subject_user_id = principal.user_id;
  subject_role = principal.role;
  action = action;
  resource_type = type;
  resource_id = id;
  outcome = outcome;
  decision_hash = "";
  fields_decrypted = [];
  fields_masked = [];
  fields_denied = [];
  details = [];
}

-- `if s.audit != nil { s.writeAuditLog(…) }`, whose error is ignored.
abbrev pub write_audit_log : {R : Type 0} → Logging → AuditLog → System R → System R
write_audit_log logs log s = if logs.audited then record s { trail = s.trail ++ (log ∷ []) } else s

abbrev pub audit : {R : Type 0} → Logging → AuditLog → Act (System R) (Unit {0})
audit logs log s = (ok tt, write_audit_log logs log s)

abbrev pub perf_log :
    Principal → RequestContext → (action type : String) → Timings → World → PerfLog
perf_log principal request action type timings w = record {
  request_id = request.request_id;
  tenant_id = principal.tenant_id;
  subject_user_id = principal.user_id;
  subject_role = principal.role;
  source = "";
  action = action;
  resource_type = type;
  dcs_enabled = dcs_enabled w.settings;
  cache_level = w.settings.cache_level;
  timings = timings;
}

-- `if s.perf != nil { s.writePerfLog(…) }`, whose error is ignored.
abbrev pub write_perf_log :
    {R : Type 0}
    → Logging
    → (World → Timings)
    → Principal
    → RequestContext
    → (action type : String) → System R
    → System R
write_perf_log logs timings principal request action type s =
    if logs.measured
    then record s {
      measures =
          s.measures ++ (perf_log principal request action type (timings s.world) s.world ∷ []);
    }
    else s

abbrev pub measure :
    {R : Type 0}
    → Logging
    → (World → Timings)
    → Principal
    → RequestContext
    → (action type : String) → Act (System R) (Unit {0})
measure logs timings principal request action type s =
    (ok tt, write_perf_log logs timings principal request action type s)

-- The log of a spectator's request has the total only.
abbrev pub total_only : Logging → World → Timings
total_only logs w = record {
  total_ms = (logs.timings w).total_ms;
  pip_ms = none;
  pdp_ms = none;
  kms_ms = none;
  db_ms = none;
}
