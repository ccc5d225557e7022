-- ===== src/Auth.antt =====
-- internal/auth and the login of internal/service/auth_service.go.
pub mod Jwt
pub mod Login
