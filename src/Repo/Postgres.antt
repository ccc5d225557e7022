-- ===== src/Repo/Postgres.antt =====
-- internal/repository/postgres: the repositories over PostgreSQL.
pub mod Sql
pub mod Schema
pub mod Meaning
pub mod Scan
pub mod Halls
pub mod Films
pub mod Spectators
pub mod PerfLogs
pub mod AuditLogs
pub mod Users
pub mod Classifications
