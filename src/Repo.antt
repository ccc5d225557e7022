-- ===== src/Repo.antt =====
-- internal/repository: the repositories of the process's memory (repository/memory), which keep their
-- records in a slice, and those over PostgreSQL (repository/postgres). The lock of a repository in
-- memory makes each operation one step, so an operation is a function on the slice.
pub mod Films
pub mod Halls
pub mod Spectators
pub mod Postgres
