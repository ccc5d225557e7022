-- ===== src/Pdp/Actions.antt =====
-- What happens to each field: classification, role and hardening.
use mathlib.Core.Option
use poc_dcs.Common.{sym, ◌∙◌, ◌≢◌, subst, ap}
use poc_dcs.Pdp.Allows.{decide-field_actions_of_denied}
use poc_dcs.Types.{Classification}
use poc_dcs.Common.{
  String, true, false, ◌&&◌, ◌≡◌, ◌⊎◌, inl, inr, refl, string_eq, ◌==◌, if◌then◌else◌, arith,
  eq_iff, Option, none, some, List, [], ◌∷◌, Map, lookup, lookup-insert, Bool-cases,
}
use poc_dcs.Strings.{to_lower}
use poc_dcs.Types.{FieldAction, allow, decrypt, mask_after_decrypt, deny, FieldMeta, PolicyInput}
use poc_dcs.Config.{PdpConfig, defaults}
use poc_dcs.Pdp.{
  contains, effective, action_for_classification, build_actions, harden, harden_field,
  field_actions, decide, parse_field_action,
}

module _ (cfg : PdpConfig) where
  -- The action that the policy prescribes for a field of a resource.
  pub prescribed : (type role field : String) → FieldMeta → FieldAction
  prescribed type role field meta =
      if type == "spectator"
        && role == "agent"
        && contains cfg.spectator_agent_hardening_fields field
      then mask_after_decrypt
      else action_for_classification cfg role (effective cfg meta)

  lookup-build_actions :
      (role field : String) (fields : Map String FieldMeta)
      → lookup field (build_actions cfg role fields)
        ≡ Option.map
            (λ meta. action_for_classification cfg role (effective cfg meta))
            (lookup field fields)
  unfolding build_actions lookup
  lookup-build_actions role field [] = refl
  lookup-build_actions role field ((f, meta) ∷ fields) = ground (
    arith,
    lookup-insert f field (action_for_classification cfg role (effective cfg meta))
        (build_actions cfg role fields),
    lookup-build_actions role field fields,
  )

lookup-harden_field :
    (f : String) (actions : Map String FieldAction) (field : String)
    → lookup field (harden_field f actions)
      ≡ Option.map (λ a. if f == field then mask_after_decrypt else a) (lookup field actions)
unfolding harden_field
lookup-harden_field f actions field =
    ground (arith, eq_iff f field, lookup-insert f field mask_after_decrypt actions)

lookup-harden :
    (names : List String) (actions : Map String FieldAction) (field : String)
    → lookup field (harden names actions)
      ≡ Option.map
          (λ a. if contains names field then mask_after_decrypt else a)
          (lookup field actions)
unfolding harden
lookup-harden [] actions field = ground arith
lookup-harden (f ∷ names) actions field =
    ground (
      arith,
      lookup-harden_field f actions field,
      lookup-harden names (harden_field f actions) field,
    )

map-eq-some :
    {A B : Type 0} (f : A → B) (o : Option A) {b : B}
    → Option.map f o ≡ some b
    → (a : A) × (o ≡ some a) × (f a ≡ b)
map-eq-some f none h = cc
map-eq-some f (some a) h = (a, refl, cc)

module _ (cfg : PdpConfig) where
  lookup-field_actions :
      (input : PolicyInput) (field : String)
      → lookup field (field_actions cfg input)
        ≡ Option.map
            (prescribed cfg input.resource.type input.principal.role field)
            (lookup field input.resource.fields)
  unfolding field_actions prescribed
  lookup-field_actions input field = ground (
    arith,
    lookup-harden cfg.spectator_agent_hardening_fields
        (build_actions cfg input.principal.role input.resource.fields) field,
    lookup-build_actions cfg input.principal.role field input.resource.fields,
  )

  -- An allowed decision names exactly the fields of the resource, and gives to each the action that
  -- the configuration prescribes for its classification and the role, hardened for an agent who
  -- reads a spectator.
  pub decide-prescribed :
      (input : PolicyInput) (field : String)
      → (decide cfg input).allow ≡ true
      → lookup field (decide cfg input).field_actions
        ≡ Option.map
            (prescribed cfg input.resource.type input.principal.role field)
            (lookup field input.resource.fields)
  unfolding decide
  decide-prescribed input field h = ground (arith, lookup-field_actions input field)

  -- Where a decision names a field, allowed or not, the action is the prescribed one.
  decide-named :
      (input : PolicyInput) (field : String) (action : FieldAction)
      → lookup field (decide cfg input).field_actions ≡ some action
      → (meta : FieldMeta) × (lookup field input.resource.fields ≡ some meta)
        × (prescribed cfg input.resource.type input.principal.role field meta ≡ action)
  unfolding lookup
  decide-named input field action h = elim (Bool-cases (decide cfg input).allow) [
    | inl allowed ↦
        map-eq-some _ (lookup field input.resource.fields)
          (sym (decide-prescribed input field allowed) ∙ h)
    | inr refused ↦ absurd (ground (arith, decide-field_actions_of_denied cfg input refused))
  ]

  -- Whatever the matrix says, a hardened field of a spectator is never shown to an agent: the
  -- decision masks it or does not name it.
  pub decide_hardens :
      (input : PolicyInput) (field : String) (action : FieldAction)
      → input.resource.type ≡ "spectator"
      → input.principal.role ≡ "agent"
      → contains cfg.spectator_agent_hardening_fields field ≡ true
      → lookup field (decide cfg input).field_actions ≡ some action
      → action ≡ mask_after_decrypt
  unfolding prescribed
  decide_hardens input field action spectator agent hardened h =
      let (meta, found, same) = decide-named input field action h in
      ground (arith, eq_iff input.resource.type "spectator", eq_iff input.principal.role "agent")

-- Does the action show the field in clear?
abbrev pub Reveals : FieldAction → Type 0
Reveals action = (action ≡ allow) ⊎ (action ≡ decrypt)

-- The default matrix at a role in lower case.
cell : String → Classification → FieldAction
cell role cls = elim (lookup role defaults.pdp.role_classification_actions) [
  | none ↦ deny
  | some role_matrix ↦ elim (lookup cls role_matrix) [
    | none ↦ deny
    | some action ↦ parse_field_action action
  ]
]

agent_cell : (cls : Classification) → Reveals (cell "agent" cls) → cls ≢ "PII"
unfolding cell defaults lookup parse_field_action
agent_cell cls h = ground (
  arith,
  eq_iff "PUBLIC" cls,
  eq_iff "INTERNAL" cls,
  eq_iff "SENSITIVE" cls,
  eq_iff "PII" cls,
  eq_iff "PUBLIC" "PII",
  eq_iff "INTERNAL" "PII",
  eq_iff "SENSITIVE" "PII",
)

developer_cell : (cls : Classification) → Reveals (cell "developer" cls) → cls ≡ "PUBLIC"
unfolding cell defaults lookup parse_field_action
developer_cell cls h =
    ground
      (arith, eq_iff "PUBLIC" cls, eq_iff "INTERNAL" cls, eq_iff "SENSITIVE" cls, eq_iff "PII" cls)

unknown_row :
    (role : String)
    → ("admin" == role) ≡ false
    → ("agent" == role) ≡ false
    → ("developer" == role) ≡ false
    → lookup role defaults.pdp.role_classification_actions ≡ none
unfolding defaults lookup
unknown_row role admin agent developer = rw (admin, agent, developer)

unknown_cell :
    (role : String) (cls : Classification)
    → ("admin" == role) ≡ false
    → ("agent" == role) ≡ false
    → ("developer" == role) ≡ false
    → cell role cls ≡ deny
unfolding cell
unknown_cell role cls admin agent developer = rw (unknown_row role admin agent developer, cell) refl

abbrev pub MayReveal : String → Classification → Type 0
MayReveal role cls =
    (role ≡ "admin")
    ⊎ ((role ≡ "agent") × (cls ≢ "PII"))
    ⊎ ((role ≡ "developer") × (cls ≡ "PUBLIC"))

-- The roles that the default matrix has.
abbrev pub IsKnown : String → Type 0
IsKnown role = (role ≡ "admin") ⊎ (role ≡ "agent") ⊎ (role ≡ "developer")

-- In clear only where it may be, and denied to a role that is not known.
abbrev pub IsWithin : String → Classification → FieldAction → Type 0
IsWithin role cls action =
    MayReveal role cls ⊎ (IsKnown role × ¬ (Reveals action)) ⊎ (action ≡ deny)

Reveals-cases : (action : FieldAction) → Reveals action ⊎ (¬ (Reveals action))
Reveals-cases allow = inl (inl refl)
Reveals-cases decrypt = inl (inr refl)
Reveals-cases mask_after_decrypt = inr (λ h. elim h [ inl e ↦ cc e | inr e ↦ cc e ])
Reveals-cases deny = inr (λ h. elim h [ inl e ↦ cc e | inr e ↦ cc e ])
Reveals-cases (FieldAction.other s) = inr (λ h. elim h [ inl e ↦ cc e | inr e ↦ cc e ])

cell-IsWithin : (role : String) (cls : Classification) → IsWithin role cls (cell role cls)
cell-IsWithin role cls = elim (Bool-cases ("admin" == role)) [
  | inl admin ↦ inl (inl (sym ((eq_iff "admin" role).0 admin)))
  | inr not_admin ↦ elim (Bool-cases ("agent" == role)) [
    | inl agent ↦
        let e = (eq_iff "agent" role).0 agent in
        elim (Reveals-cases (cell role cls)) [
          | inl shown ↦ inl (inr (inl (sym e, agent_cell cls (rw (sym e) at shown))))
          | inr hidden ↦ inr (inl (inr (inl (sym e)), hidden))
        ]
    | inr not_agent ↦ elim (Bool-cases ("developer" == role)) [
      | inl developer ↦
          let e = (eq_iff "developer" role).0 developer in
          elim (Reveals-cases (cell role cls)) [
            | inl shown ↦ inl (inr (inr (sym e, developer_cell cls (rw (sym e) at shown))))
            | inr hidden ↦ inr (inl (inr (inr (sym e)), hidden))
          ]
      | inr unknown ↦ inr (inr (unknown_cell role cls not_admin not_agent unknown))
    ]
  ]
]

cell_lem :
    (role : String) (cls : Classification)
    → action_for_classification defaults.pdp role cls ≡ cell (to_lower role) cls
unfolding action_for_classification cell
cell_lem role cls = refl

lower_agent : to_lower "agent" ≡ "agent"
unfolding to_lower
lower_agent = refl

-- Hardening masks, and only for a known role.
prescribed-IsWithin :
    (type role field : String) (meta : FieldMeta)
    → IsWithin
        (to_lower role)
        (effective defaults.pdp meta)
        (prescribed defaults.pdp type role field meta)
unfolding prescribed
prescribed-IsWithin type role field meta =
    let cls = effective defaults.pdp meta in
    elim (Bool-cases (
      type == "spectator"
      && role == "agent"
      && contains defaults.pdp.spectator_agent_hardening_fields field)) [
        | inl hardened ↦
            let agent : role ≡ "agent" = (eq_iff role "agent").0 (ground arith) in
            rw hardened (
              inr (
                inl (
                  inr (inl (ap to_lower agent ∙ lower_agent)),
                  λ h. elim h [ inl e ↦ cc e | inr e ↦ cc e ],
                )))
        | inr plain ↦ rw (plain, cell_lem role cls) (cell-IsWithin (to_lower role) cls)
      ]

-- Under the default configuration a decision shows a field in clear only to an admin, to an agent
-- if the field is no personal data, and to a developer if it is public, and every field that it
-- names for another role it denies. The role is taken in lower case.
pub defaults_least_privilege :
    (input : PolicyInput) (field : String) (action : FieldAction)
    → lookup field (decide defaults.pdp input).field_actions ≡ some action
    → (meta : FieldMeta) × (lookup field input.resource.fields ≡ some meta)
      × IsWithin (to_lower input.principal.role) (effective defaults.pdp meta) action
defaults_least_privilege input field action h =
    let role = input.principal.role in
    let (meta, found, same) = decide-named defaults.pdp input field action h in
    (
      meta,
      found,
      subst (IsWithin (to_lower role) (effective defaults.pdp meta)) same
          (prescribed-IsWithin input.resource.type role field meta),
    )
