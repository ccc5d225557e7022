-- ===== src/Http/Routes/Admin.antt =====
-- Who reaches the handlers of the administrators.
use poc_dcs.Common.{inl, inr, Option, All}
use poc_dcs.Auth.Jwt.{JwtClaims}
use poc_dcs.Service.System.{System}
use poc_dcs.Http.Exchange.{Request, Handler}
use poc_dcs.Http.Server.{Server}
use poc_dcs.Http.Middleware.{admin_middleware}
use poc_dcs.Http.Middleware.Gates.{IsAdmin, IsTurnedAway, admin_middleware_lem}
use poc_dcs.Http.Logs.{handle_audit, handle_perf, handle_perf_summary}
use poc_dcs.Http.Security.{handle_admin_settings}
use poc_dcs.Http.Routes.{Route, admin_routes}

module _ {R : Type 0} (server : Server R) where
  turned_away :
      (next : Handler R) (claims : Option JwtClaims) (r : Request) (s : System R)
      → ¬ IsAdmin server r s
      → IsTurnedAway server (admin_middleware server next claims r s) s
  turned_away next claims r s stranger = elim (admin_middleware_lem server next claims r s) [
    | inl (admin, runs) ↦ absurd (stranger admin)
    | inr away ↦ away
  ]

  -- On every route of the administrators (the settings, the audit entries, the performance logs and
  -- their summary) a request without an accepted token of an administrator is answered with 401 or 403
  -- and changes nothing.
  pub admin_routes_guarded :
      (claims : Option JwtClaims) (r : Request) (s : System R)
      → ¬ IsAdmin server r s
      → All (λ (route : Route R). IsTurnedAway server (route.1 claims r s) s) (admin_routes server)
  admin_routes_guarded claims r s stranger =
      let away = λ (next : Handler R). turned_away next claims r s stranger in
      (
        away (handle_admin_settings server),
        (
          away (handle_audit server),
          (
            away (handle_audit server),
            (
              away (handle_perf server),
              (away (handle_perf server), (away (handle_perf_summary server), tt)),
            ),
          ),
        ),
      )
