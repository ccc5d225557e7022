-- ===== src/Http.antt =====
-- internal/transport/http: requests, who is behind them, the handlers and the routes.
pub mod Exchange
pub mod Parameters
pub mod Server
pub mod Middleware
pub mod Films
pub mod Halls
pub mod Spectators
pub mod Logs
pub mod Security
pub mod Routes
