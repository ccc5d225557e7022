-- ===== src/Service.antt =====
-- internal/service: the workflows above the enforcer and the repositories.
pub mod System
pub mod Films
pub mod Halls
pub mod Logs
pub mod Spectators
