-- ===== src/Tests/Decisions.antt =====
-- Decisions of internal/dcs/pdp under the default configuration.
use mathlib.Core.Option
use poc_dcs.Common.{
  String, bytes, ◌+◌, ◌≤◌, ◌≡◌, ◌≢◌, ◌↔◌, ◌&&◌, refl, [], some, none, string_eq, lookup, insert,
  true, false, arith, eq_iff,
}
use poc_dcs.Types.{decrypt, mask_after_decrypt, PolicyInput, FieldMeta}
use poc_dcs.Config.{defaults}
use poc_dcs.Runtime.{dcs_enabled}
use poc_dcs.Runtime
use poc_dcs.Strings.{to_lower, trim_space}
use poc_dcs.World.{level_enabled, pdp_get}
use poc_dcs.Pdp.{
  allow_without_dcs, verdict, decide, field_actions, build_actions, harden, harden_field,
  action_for_classification, parse_field_action, effective, evaluate, decision_cache_key,
}
use poc_dcs.Pdp.Allows.{Permits, decide_allows_iff}
use poc_dcs.Pdp.Actions.{
  prescribed, decide-prescribed, decide_hardens, defaults_least_privilege, IsWithin,
}
use poc_dcs.Pdp.Cached.{evaluate-allow}
use poc_dcs.Cache.Ttl
use poc_dcs.Strings
use poc_dcs.World.{new_manager}
use poc_dcs.Pdp.{is_cacheable_action}
use poc_dcs.Pdp.Confusion.{elsewhere, answered_after, evaluate_confuses_tenants}
use poc_dcs.Tests.Digest.{digests, digests-NoCollision}
use poc_dcs.Tests.Fixtures.{oracle, start, start-CacheIsSound, input_of, spectator_fields}

-- An agent reads a spectator: the name is hardened, the age follows the matrix.
abbrev reading : PolicyInput
reading = input_of "agent" "spectator.read" "spectator" spectator_fields

-- A developer creates a film.
abbrev creating : PolicyInput
creating = input_of "developer" "film.create" "film" []

decide_allows_iff_example : ((decide defaults.pdp reading).allow ≡ true) ↔ (
    (creating.principal.tenant_id ≡ reading.resource.tenant_id)
    × Permits defaults.pdp "spectator.read" "agent")
decide_allows_iff_example = decide_allows_iff defaults.pdp reading

reading_allowed : (decide defaults.pdp reading).allow ≡ true
unfolding decide verdict defaults
reading_allowed = refl

decide-prescribed_example :
    lookup "age" (decide defaults.pdp reading).field_actions
    ≡ Option.map (prescribed defaults.pdp "spectator" "agent" "age") (lookup "age" spectator_fields)
decide-prescribed_example = decide-prescribed defaults.pdp reading "age" reading_allowed

reading_name : lookup "name" (decide defaults.pdp reading).field_actions ≡ some mask_after_decrypt
unfolding decide verdict defaults field_actions build_actions harden harden_field
    action_for_classification parse_field_action lookup insert to_lower
reading_name = refl

decide_hardens_example : mask_after_decrypt ≡ mask_after_decrypt
unfolding defaults
decide_hardens_example =
    decide_hardens defaults.pdp reading "name" mask_after_decrypt refl refl refl reading_name

reading_age : lookup "age" (decide defaults.pdp reading).field_actions ≡ some decrypt
unfolding decide verdict defaults field_actions build_actions harden harden_field
    action_for_classification parse_field_action lookup insert to_lower
reading_age = refl

defaults_least_privilege_example :
    (meta : FieldMeta) × (lookup "age" spectator_fields ≡ some meta)
    × IsWithin (to_lower "agent") (effective defaults.pdp meta) decrypt
defaults_least_privilege_example = defaults_least_privilege reading "age" decrypt reading_age

evaluate-allow_example :
    (evaluate oracle digests defaults.pdp creating start).0.0.allow
    ≡ allow_without_dcs defaults.pdp "film.create" "developer"
evaluate-allow_example =
    evaluate-allow oracle digests defaults.pdp creating start digests-NoCollision refl
      start-CacheIsSound

abbrev admin_creating : PolicyInput
admin_creating = input_of "admin" "film.create" "film" []

admin_creating_allowed : (decide defaults.pdp admin_creating).allow ≡ true
unfolding decide verdict defaults
admin_creating_allowed = refl

start_enabled : dcs_enabled start.settings ≡ true
unfolding dcs_enabled Runtime.new Runtime.normalize_mode Runtime.normalize_level to_lower trim_space
    Strings.trim_left Strings.trim_right Strings.lower_char
start_enabled = refl

start_cacheable : (level_enabled start 2 && is_cacheable_action "film.create") ≡ true
unfolding level_enabled Runtime.new Runtime.normalize_level
start_cacheable = refl

start_missed : (k : String) → (pdp_get oracle k start).0 ≡ none
unfolding pdp_get lookup new_manager Ttl.get Ttl.new
start_missed k = refl

start_in_time : 2 ≤ 1 + start.caches.pdp.default_ttl
unfolding new_manager Ttl.new
start_in_time = omega arith

other_tenant : admin_creating.principal.tenant_id ≢ "globex"
other_tenant = λ h. cc ((eq_iff "acme" "globex").1 h)

evaluate_confuses_tenants_example :
    (answered_after oracle digests defaults.pdp admin_creating
        (elsewhere "globex" (bytes "7") admin_creating)
        start
      ≡ true)
    × ((decide defaults.pdp (elsewhere "globex" (bytes "7") admin_creating)).allow ≡ false)
evaluate_confuses_tenants_example =
    evaluate_confuses_tenants oracle digests defaults.pdp admin_creating start "globex" (bytes "7")
      start_cacheable start_enabled admin_creating_allowed other_tenant
      (start_missed (decision_cache_key digests (dcs_enabled start.settings) admin_creating))
      start_in_time
