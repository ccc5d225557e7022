-- ===== src/Http/Routes.antt =====
-- `registerRoutes` of internal/transport/http/server.go: the handlers by their patterns. The choice of a
-- pattern for a path is net/http's.
pub mod Admin
use poc_dcs.Common.{String, List, [], ◌∷◌, ◌++◌}
use poc_dcs.Http.Exchange.{Handler, respond, status, ready}
use poc_dcs.Http.Server.{Server}
use poc_dcs.Http.Middleware.{admin_middleware, optional_jwt_middleware}
use poc_dcs.Http.Films.{handle_films, handle_film_subroutes}
use poc_dcs.Http.Halls.{handle_halls}
use poc_dcs.Http.Spectators.{handle_spectators, handle_search_spectators}
use poc_dcs.Http.Logs.{handle_audit, handle_perf, handle_perf_summary}
use poc_dcs.Http.Security.{handle_login, handle_admin_settings}

abbrev pub Route : Type 0 → Type 0
Route R = String × Handler R

module _ {R : Type 0} (server : Server R) where
  abbrev pub open_routes : List (Route R)
  open_routes =
      ("/health", λ claims r s. respond 200 status s)
      ∷ ("/ready", λ claims r s. respond 200 ready s)
      ∷ ("/auth/login", handle_login server)
      ∷ []

  abbrev pub admin_routes : List (Route R)
  admin_routes =
      ("/admin/settings", admin_middleware server (handle_admin_settings server))
      ∷ ("/audit", admin_middleware server (handle_audit server))
      ∷ ("/audit/", admin_middleware server (handle_audit server))
      ∷ ("/perf", admin_middleware server (handle_perf server))
      ∷ ("/perf/", admin_middleware server (handle_perf server))
      ∷ ("/perf/summary", admin_middleware server (handle_perf_summary server))
      ∷ []

  abbrev pub protected_routes : List (Route R)
  protected_routes =
      ("/films", optional_jwt_middleware server (handle_films server))
      ∷ ("/films/", optional_jwt_middleware server (handle_film_subroutes server))
      ∷ ("/halls", optional_jwt_middleware server (handle_halls server))
      ∷ ("/halls/", optional_jwt_middleware server (handle_halls server))
      ∷ ("/spectators", optional_jwt_middleware server (handle_spectators server))
      ∷ ("/spectators/", optional_jwt_middleware server (handle_spectators server))
      ∷ ("/spectators/search", optional_jwt_middleware server (handle_search_spectators server))
      ∷ []

  abbrev pub register_routes : List (Route R)
  register_routes = open_routes ++ (admin_routes ++ protected_routes)
