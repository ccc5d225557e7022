-- ===== src/Http/Logs.antt =====
-- internal/transport/http/audit_handler.go and perf_handler.go; what they write to the log of the
-- process is not modelled.
use poc_dcs.Common.{
  String, bytes, ℤ, Bool, true, false, not, Option, none, some, List, Result, ok, err, string_eq,
  ◌==◌, if◌then◌else◌,
}
use poc_dcs.Strings.{trim_space}
use poc_dcs.Strconv.{atoi}
use poc_dcs.Service.System.{System, AuditLog, PerfLog, is_forbidden}
use poc_dcs.Service.Logs.{
  AuditService, PerfService, PerfSummary, list_audits, list_perfs, summarize,
}
use poc_dcs.Http.Exchange.{
  Request, Response, Handler, respond, empty, detail, audits, perfs, summaries,
}
use poc_dcs.Http.Parameters.{
  parse_limit, parse_action_param, parse_source_param, parse_bool_param, not_negative,
}
use poc_dcs.Http.Server.{Server}
use poc_dcs.Http.Films.{caller, asked}

module _ {R : Type 0} (server : Server R) where
  abbrev pub answer_audits : Result (List AuditLog) × System R → Response × System R
  answer_audits (ok logs, s) = respond 200 (audits logs) s
  answer_audits (err e, s) =
      if is_forbidden e
      then respond 403 (detail "admin role required") s
      else respond 500 (detail "failed to retrieve audit logs") s

  abbrev pub audits_up_to : AuditService R → Option ℤ → Handler R
  audits_up_to service none claims r s = respond 400 (detail "limit must be between 1 and 1000") s
  audits_up_to service (some limit) claims r s =
      answer_audits (list_audits service (caller server claims r) (asked server r) limit s)

  abbrev pub audits_from : Option (AuditService R) → Handler R
  audits_from none claims r s = respond 503 (detail "audit service unavailable") s
  audits_from (some service) claims r s = audits_up_to service (parse_limit r) claims r s

  unfoldable pub handle_audit : Handler R
  unfolding parse_limit
  handle_audit claims r s =
      if not (r.method == "GET") then respond 405 empty s else audits_from server.audit claims r s

  abbrev pub source_or_configured : Option String → Option String
  source_or_configured (some source) = some source
  source_or_configured none =
      if trim_space server.perf_source == "" then none else some (trim_space server.perf_source)

  -- The source of the request, or else the configured one.
  unfoldable pub source_asked : Request → Option String
  unfolding parse_source_param trim_space
  source_asked r = source_or_configured (parse_source_param r)

  abbrev pub answer_perfs : Result (List PerfLog) × System R → Response × System R
  answer_perfs (ok logs, s) = respond 200 (perfs logs) s
  answer_perfs (err e, s) =
      if is_forbidden e
      then respond 403 (detail "admin role required") s
      else respond 500 (detail "failed to retrieve perf logs") s

  abbrev pub perfs_up_to : PerfService R → Option ℤ → Handler R
  perfs_up_to service none claims r s = respond 400 (detail "limit must be between 1 and 1000") s
  perfs_up_to service (some limit) claims r s = answer_perfs (
      list_perfs service (caller server claims r) (asked server r) limit (parse_action_param r)
        (source_asked r) s)

  abbrev pub perfs_from : Option (PerfService R) → Handler R
  perfs_from none claims r s = respond 503 (detail "perf service unavailable") s
  perfs_from (some service) claims r s = perfs_up_to service (parse_limit r) claims r s

  unfoldable pub handle_perf : Handler R
  unfolding parse_limit parse_action_param source_asked
  handle_perf claims r s =
      if not (r.method == "GET") then respond 405 empty s else perfs_from server.perf claims r s

  abbrev pub answer_summary : Result (List PerfSummary) × System R → Response × System R
  answer_summary (ok rows, s) = respond 200 (summaries rows) s
  answer_summary (err e, s) =
      if is_forbidden e
      then respond 403 (detail "admin role required") s
      else respond 500 (detail "failed to retrieve perf summary") s

  abbrev pub summary_of : PerfService R → Option ℤ → Bool → Handler R
  summary_of service level all_levels claims r s = answer_summary (
      summarize service (caller server claims r) (asked server r) (parse_action_param r) level
        all_levels (source_asked r) s)

  -- The cache level that is asked for, or else the one in force.
  abbrev pub level_asked : Request → System R → Option ℤ
  level_asked r s =
      let raw = trim_space (r.query "cache_level") in
      if raw == "" then some s.world.settings.cache_level else not_negative (atoi (bytes raw))

  abbrev pub summary_at : PerfService R → Option ℤ → Handler R
  summary_at service none claims r s = respond 400 (detail "cache_level must be >= 0") s
  summary_at service (some level) claims r s = summary_of service (some level) false claims r s

  abbrev pub summary_over : PerfService R → Option Bool → Handler R
  summary_over service none claims r s = respond 400 (detail "all_cache_levels must be a boolean") s
  summary_over service (some true) claims r s = summary_of service none true claims r s
  summary_over service (some false) claims r s = summary_at service (level_asked r s) claims r s

  abbrev pub summary_from : Option (PerfService R) → Handler R
  summary_from none claims r s = respond 503 (detail "perf service unavailable") s
  summary_from (some service) claims r s =
      summary_over service (parse_bool_param r "all_cache_levels") claims r s

  unfoldable pub handle_perf_summary : Handler R
  unfolding parse_action_param source_asked parse_bool_param trim_space atoi
  handle_perf_summary claims r s =
      if not (r.method == "GET") then respond 405 empty s else summary_from server.perf claims r s
