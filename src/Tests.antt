-- ===== src/Tests.antt =====
-- Concrete requests, and what the theorems say of them.
mod Digest
mod Fixtures
mod Caches
mod Decisions
mod Fields
mod Requests
mod Tokens
mod Web
mod Vaults
mod Stores
mod Workflows
mod Engine
