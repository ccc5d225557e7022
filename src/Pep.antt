-- ===== src/Pep.antt =====
-- internal/dcs/pep: the policy enforcement point. What it shares: the interface `Decryptor` and the
-- values of a JSON payload.
pub mod Mask
pub mod Payload
pub mod Film
pub mod Spectator
