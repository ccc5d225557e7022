-- ===== src/Config.antt =====
-- internal/dcs/config/config.go: the policy configuration and its defaults. `Load`, which reads a
-- JSON file into the same record, is input and output and is not modelled.
use poc_dcs.Common.{String, ℕ, List, [], ◌∷◌, Map}
use poc_dcs.Types.{Classification, classification_internal}

pub record PipConfig : Type 0 where
  pub channel : String
  pub purpose : String
  pub device_trust : ℕ
  pub client_ip_header : String

pub record PdpConfig : Type 0 where
  pub default_classification : Classification
  pub read_actions : List String
  pub write_actions : List String
  pub bootstrap_actions : List String
  pub audit_actions : List String
  pub role_classification_actions : Map String (Map String String)
  pub spectator_agent_hardening_fields : List String

pub record DcsConfig : Type 0 where
  pub pip : PipConfig
  pub pdp : PdpConfig

unfoldable pub defaults : DcsConfig
defaults = record {
  pip = record {
    channel = "web";
    purpose = "cinema_ops";
    device_trust = 800;
    client_ip_header = "x-real-ip";
  };
  pdp = record {
    default_classification = classification_internal;
    read_actions = "film.read" ∷ "hall.read" ∷ "spectator.read" ∷ [];
    write_actions =
        "film.create" ∷ "hall.create" ∷ "spectator.create" ∷ "film.update_time" ∷ "search.spectator"
        ∷ [];
    bootstrap_actions = "bootstrap" ∷ [];
    audit_actions = "audit.read" ∷ "perf.read" ∷ [];
    role_classification_actions =
        (
          "admin",
          ("PUBLIC", "allow")
              ∷ ("INTERNAL", "allow")
              ∷ ("SENSITIVE", "decrypt")
              ∷ ("PII", "decrypt")
              ∷ [],
        )
        ∷ (
          "agent",
          ("PUBLIC", "allow")
              ∷ ("INTERNAL", "allow")
              ∷ ("SENSITIVE", "decrypt")
              ∷ ("PII", "mask_after_decrypt")
              ∷ [],
        )
        ∷ (
          "developer",
          ("PUBLIC", "allow")
              ∷ ("INTERNAL", "mask_after_decrypt")
              ∷ ("SENSITIVE", "mask_after_decrypt")
              ∷ ("PII", "mask_after_decrypt")
              ∷ [],
        )
        ∷ [];
    spectator_agent_hardening_fields = "name" ∷ "external_id" ∷ [];
  };
}
