-- ===== src/Pdp.antt =====
-- internal/dcs/pdp/engine.go: the policy decision point.
pub mod Allows
pub mod Actions
pub mod Cached
pub mod Hashing
pub mod Confusion
use poc_dcs.Common.{Text}
use Prim.Native.String.{◌++◌ as string_append}
use poc_dcs.Common.{
  String, ℕ, Bool, true, false, not, ◌&&◌, ◌||◌, Option, none, some, List, [], ◌∷◌, map, Map, keys,
  lookup, insert, elem, string_eq, ◌==◌, if◌then◌else◌,
}
use poc_dcs.Order.{sort_strings}
use poc_dcs.Strings.{to_lower}
use poc_dcs.Types.{
  FieldAction, allow, decrypt, mask_after_decrypt, deny, other, FieldMeta, Resource, PolicyInput,
  Decision, Classification,
}
use poc_dcs.Config.{PdpConfig}
use poc_dcs.Runtime.{Settings, dcs_enabled}
use poc_dcs.World.{Oracle, World, level_enabled, pdp_get, pdp_set}

abbrev pub contains : List String → String → Bool
contains slice value = elem value slice

unfoldable pub parse_field_action : String → FieldAction
parse_field_action s =
    if s == "allow"
    then allow
    else if s == "decrypt"
    then decrypt
    else if s == "mask_after_decrypt"
    then mask_after_decrypt
    else deny

-- Is the role one of those that may write?
abbrev pub may_write : String → Bool
may_write role = role == "agent" || role == "admin"

module _ (cfg : PdpConfig) where
  unfoldable pub action_for_classification : String → Classification → FieldAction
  unfolding parse_field_action
  action_for_classification role cls =
      elim (lookup (to_lower role) cfg.role_classification_actions) [
        | none ↦ deny
        | some role_matrix ↦ elim (lookup cls role_matrix) [
          | none ↦ deny
          | some action ↦ parse_field_action action
        ]
      ]

  -- `if classification == "" { classification = e.config.DefaultClassification }`
  abbrev pub effective : FieldMeta → Classification
  effective meta =
      if meta.classification == "" then cfg.default_classification else meta.classification

  -- The loop over the resource's fields.
  unfoldable pub build_actions : String → Map String FieldMeta → Map String FieldAction
  build_actions role [] = []
  build_actions role ((field, meta) ∷ fields) =
      insert field (action_for_classification role (effective meta)) (build_actions role fields)

  unfoldable pub allow_without_dcs : String → String → Bool
  allow_without_dcs action role =
      if contains cfg.read_actions action
      then true
      else if contains cfg.write_actions action
      then may_write role
      else if contains cfg.bootstrap_actions action
      then true
      else if contains cfg.audit_actions action
      then role == "admin"
      else false

  -- The ladder of `decide`: the verdict and its reason.
  unfoldable pub verdict : String → String → Bool × String
  verdict action role =
      if contains cfg.read_actions action
      then (true, "read_allowed")
      else if contains cfg.write_actions action
      then (if may_write role then (true, "write_allowed") else (false, "write_forbidden"))
      else if contains cfg.bootstrap_actions action
      then (true, "bootstrap_allowed")
      else if contains cfg.audit_actions action
      then (if role == "admin" then (true, "audit_allowed") else (false, "audit_admin_only"))
      else (false, "unknown_action")

-- `if _, ok := fieldActions[fn]; ok { fieldActions[fn] = types.FieldActionMaskAfterDecrypt }`
unfoldable pub harden_field : String → Map String FieldAction → Map String FieldAction
harden_field field actions = elim (lookup field actions) [
  | none ↦ actions
  | some _ ↦ insert field mask_after_decrypt actions
]

unfoldable pub harden : List String → Map String FieldAction → Map String FieldAction
unfolding harden_field
harden [] actions = actions
harden (field ∷ fields) actions = harden fields (harden_field field actions)

abbrev pub denied : String → Decision
denied reason = record { allow = false; field_actions = []; reason = reason; hash = "" }

module _ (cfg : PdpConfig) where
  unfoldable pub field_actions : PolicyInput → Map String FieldAction
  unfolding build_actions harden action_for_classification
  field_actions input =
      let built = build_actions cfg input.principal.role input.resource.fields in
      if input.resource.type == "spectator" && input.principal.role == "agent"
      then harden cfg.spectator_agent_hardening_fields built
      else built

  unfoldable pub decide : PolicyInput → Decision
  unfolding verdict field_actions
  decide input =
      if not (input.principal.tenant_id == input.resource.tenant_id)
      then denied "tenant_mismatch"
      else let (allowed, reason) = verdict cfg input.action input.principal.role in
        if allowed
        then record {
          allow = true;
          field_actions = field_actions input;
          reason = reason;
          hash = "";
        }
        else denied reason

-- What `DecisionHash` and `decisionCacheKey` encode as JSON.
pub record DecisionPayload : Type 0 where
  pub allow : Bool
  pub field_actions : List (String × Option FieldAction)
  pub reason : String

pub record KeyPayload : Type 0 where
  pub dcs : Bool
  pub action : String
  pub tenant : String
  pub role : String
  pub user : String
  pub resource : String
  pub owner : Text
  pub labels : List String
  pub fields : List String

-- The hexadecimal SHA-256 of the JSON text, a parameter.
pub record Digests : Type 0 where
  pub of_decision : DecisionPayload → String
  pub of_key : KeyPayload → String

unfoldable pub decision_payload : Decision → DecisionPayload
decision_payload d = record {
  allow = d.allow;
  field_actions = map (λ k. (k, lookup k d.field_actions)) (sort_strings (keys d.field_actions));
  reason = d.reason;
}

-- `k + ":" + string(v.Classification)`
abbrev pub field_entry : String × FieldMeta → String
field_entry (k, meta) = string_append k (string_append ":" meta.classification)

unfoldable pub key_payload : Bool → PolicyInput → KeyPayload
key_payload dcs input = record {
  dcs = dcs;
  action = input.action;
  tenant = input.principal.tenant_id;
  role = input.principal.role;
  user = input.principal.user_id;
  resource = input.resource.type;
  owner = input.resource.owner_id;
  labels = sort_strings input.resource.labels;
  fields = sort_strings (map field_entry input.resource.fields);
}

abbrev pub is_cacheable_action : String → Bool
is_cacheable_action action =
    action == "film.read" || action == "film.update_time" || action == "film.create"

module _ (digests : Digests) where
  unfoldable pub decision_hash : Decision → String
  unfolding decision_payload
  decision_hash d = digests.of_decision (decision_payload d)

  unfoldable pub decision_cache_key : Bool → PolicyInput → String
  unfolding key_payload
  decision_cache_key dcs input = digests.of_key (key_payload dcs input)

module _ (digests : Digests) (cfg : PdpConfig) where
  -- The decision that no cache answers, with its hash.
  unfoldable pub compute : Bool → PolicyInput → Decision
  unfolding decide allow_without_dcs decision_hash
  compute dcs input =
      let decision : Decision =
        if not dcs
        then record {
          allow = allow_without_dcs cfg input.action input.principal.role;
          field_actions = [];
          reason = "dcs_off";
          hash = "";
        }
        else decide cfg input in
      record decision { hash = decision_hash digests decision }

module _ (o : Oracle) (digests : Digests) (cfg : PdpConfig) where
  -- After the lookup: the cached decision, or a fresh one that is written to the cache.
  unfoldable pub resolve :
      String → PolicyInput → Option Decision → World → (Decision × Bool) × World
  resolve key input (some cached) w = ((cached, true), w)
  resolve key input none w =
      let fresh = compute digests cfg (dcs_enabled w.settings) input in
      ((fresh, false), pdp_set o key fresh w)

  unfoldable pub evaluate_cached : String → PolicyInput → World → (Decision × Bool) × World
  unfolding resolve
  evaluate_cached key input w = let (hit, w') = pdp_get o key w in resolve key input hit w'

  unfoldable pub evaluate : PolicyInput → World → (Decision × Bool) × World
  unfolding evaluate_cached
  evaluate input w =
      if level_enabled w 2 && is_cacheable_action input.action
      then evaluate_cached (decision_cache_key digests (dcs_enabled w.settings) input) input w
      else ((compute digests cfg (dcs_enabled w.settings) input, false), w)
