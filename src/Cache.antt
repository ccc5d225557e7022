-- ===== src/Cache.antt =====
-- internal/dcs/cache
pub mod Ttl
