-- ===== src/Pdp/Allows.antt =====
-- Who is allowed what: `decide` and `allowWithoutDCS`.
use poc_dcs.Common.{String, true, false, ◌&&◌, ◌≡◌, ◌↔◌, string_eq, ◌==◌, arith, eq_iff, []}
use poc_dcs.Types.{PolicyInput}
use poc_dcs.Config.{PdpConfig}
use poc_dcs.Pdp.{contains, may_write, verdict, allow_without_dcs, decide}

-- The rules of the configuration, in the order in which the lists are searched.
pub data Permits (cfg : PdpConfig) (action role : String) : Type 0 where
  reading : contains cfg.read_actions action ≡ true → Permits cfg action role
  writing :
      contains cfg.read_actions action ≡ false
      → contains cfg.write_actions action ≡ true
      → may_write role ≡ true
      → Permits cfg action role
  starting :
      contains cfg.read_actions action ≡ false
      → contains cfg.write_actions action ≡ false
      → contains cfg.bootstrap_actions action ≡ true
      → Permits cfg action role
  auditing :
      contains cfg.read_actions action ≡ false
      → contains cfg.write_actions action ≡ false
      → contains cfg.bootstrap_actions action ≡ false
      → contains cfg.audit_actions action ≡ true
      → role ≡ "admin"
      → Permits cfg action role

module _ (cfg : PdpConfig) where
  pub permits_of_allow :
      (action role : String) → allow_without_dcs cfg action role ≡ true → Permits cfg action role
  unfolding allow_without_dcs
  permits_of_allow action role h =
      grind (arith, reading, writing, starting, auditing, eq_iff role "admin")

  pub allow_of_permits :
      (action role : String) → Permits cfg action role → allow_without_dcs cfg action role ≡ true
  unfolding allow_without_dcs
  allow_of_permits action role (reading r) = ground arith
  allow_of_permits action role (writing r w m) = ground arith
  allow_of_permits action role (starting r w b) = ground arith
  allow_of_permits action role (auditing r w b a m) = ground (arith, eq_iff role "admin")

  verdict-allow :
      (action role : String) → (verdict cfg action role).0 ≡ allow_without_dcs cfg action role
  unfolding verdict allow_without_dcs
  verdict-allow action role = ground arith

  -- With the DCS on, the verdict is the one of the DCS off, and the tenants agree besides.
  pub decide-allow :
      (input : PolicyInput)
      → (decide cfg input).allow ≡ (
          input.principal.tenant_id == input.resource.tenant_id
          && allow_without_dcs cfg input.action input.principal.role)
  unfolding decide
  decide-allow input = ground (arith, verdict-allow input.action input.principal.role)

  -- A request is allowed exactly if the resource is of the principal's tenant and the rules of the
  -- configuration permit the action to the role.
  pub decide_allows_iff :
      (input : PolicyInput)
      → ((decide cfg input).allow ≡ true) ↔ (
          (input.principal.tenant_id ≡ input.resource.tenant_id)
          × Permits cfg input.action input.principal.role)
  decide_allows_iff input = ground (
    arith,
    decide-allow input,
    eq_iff input.principal.tenant_id input.resource.tenant_id,
    permits_of_allow input.action input.principal.role,
    allow_of_permits input.action input.principal.role,
  )

  -- A refusal discloses nothing about the fields.
  pub decide-field_actions_of_denied :
      (input : PolicyInput)
      → (decide cfg input).allow ≡ false
      → (decide cfg input).field_actions ≡ []
  unfolding decide
  decide-field_actions_of_denied input h = ground arith
