-- ===== src/Service/Halls/Guarded.antt =====
-- Who may create a hall, and what neither a list nor a creation leaves behind.
use poc_dcs.Common.{◌≡◌, refl, List, [], ◌∷◌, Bool-cases, inl, inr, forbidden}
use poc_dcs.Action.{Result-cases}
use poc_dcs.Types.{Principal, RequestContext}
use poc_dcs.Action.Leaves.{Leaves, pure-Leaves, raise-Leaves, if-Leaves, bind-Leaves}
use poc_dcs.Service.System.Kept.{
  trail_of, store_of, on_world-trail, on_store-trail, measure-trail, measure-store,
}
use poc_dcs.Common.{String, ◌⊎◌}
use poc_dcs.Pip
use poc_dcs.Enforcer.{enforce_hall_read, asking, authorize_on, evaluate_hall_create}
use poc_dcs.Enforcer.Authorize.{NoCollision, IsSound, authorize_on-Permits}
use poc_dcs.Pdp.Allows.{Permits}
use poc_dcs.Repo.Halls.{HallRecord}
use poc_dcs.Service.System.{System}
use poc_dcs.Service.Halls.{
  HallService, HallCreateInput, record_input, or_zero, show_halls, list_halls, create_allowed,
  create_refused, create_hall, hall_perf, hall_output,
}

module _ {R : Type 0} (service : HallService R) (principal : Principal)
    (request : RequestContext) where
  hall_perf-trail : (action : String) → Leaves trail_of (hall_perf service principal request action)
  hall_perf-trail action =
      measure-trail service.logs service.logs.timings principal request action "hall"

  show_halls-trail :
      (records : List HallRecord) → Leaves trail_of (show_halls service principal request records)
  unfolding show_halls
  show_halls-trail [] = pure-Leaves trail_of []
  show_halls-trail (rec ∷ records) =
      let hall = record_input service principal request rec in
      bind-Leaves (on_world-trail (enforce_hall_read service.enforcer principal request hall))
        (λ result.
          bind-Leaves
            (on_store-trail (or_zero (service.repo.count_spectators principal.tenant_id rec.id)))
            (λ count. bind-Leaves (show_halls-trail records) (λ rest.
              pure-Leaves trail_of
                (hall_output service principal request rec.id result count ∷ rest))))

  create_allowed-trail :
      (input : HallCreateInput) → Leaves trail_of (create_allowed service principal request input)
  unfolding create_allowed
  create_allowed-trail input =
      search (bind-Leaves, on_world-trail, on_store-trail, pure-Leaves, hall_perf-trail)

  create_refused-trail : Leaves trail_of (create_refused service principal request)
  create_refused-trail =
      bind-Leaves (hall_perf-trail "hall.create") (λ measured. raise-Leaves trail_of forbidden)

  -- Neither listing the halls nor creating one, allowed or refused, writes an audit entry.
  halls_unaudited :
      (input : HallCreateInput) (s : System R)
      → ((list_halls service principal request s).1.trail ≡ s.trail)
        × ((create_hall service principal request input s).1.trail ≡ s.trail)
  unfolding list_halls create_hall
  halls_unaudited input s =
      let listed : Leaves trail_of (list_halls service principal request) =
        search (bind-Leaves, on_store-trail, pure-Leaves, hall_perf-trail, show_halls-trail) in
      let created : Leaves trail_of (create_hall service principal request input) =
        search
          (bind-Leaves, on_world-trail, if-Leaves, create_refused-trail, create_allowed-trail) in
      (listed.left s, created.left s)

  pub hall_perf-store :
      (action : String) → Leaves store_of (hall_perf service principal request action)
  hall_perf-store action =
      measure-store service.logs service.logs.timings principal request action "hall"

  create_refused-store : Leaves store_of (create_refused service principal request)
  create_refused-store =
      bind-Leaves (hall_perf-store "hall.create") (λ measured. raise-Leaves store_of forbidden)

  abbrev pub hall_request : HallCreateInput → Pip.Input
  hall_request input = asking principal request "hall.create" "hall" [] input.owner_user_id []

  -- A hall is created only if the configuration permits `hall.create` to the role; where it is not
  -- permitted, the store is left as it was.
  pub create_hall_guarded :
      (input : HallCreateInput) (s : System R)
      → NoCollision service.enforcer.digests
      → IsSound service.enforcer s.world
      → Permits service.enforcer.pdp_config "hall.create" principal.role
        ⊎ ((create_hall service principal request input s).1.store ≡ s.store)
  unfolding create_hall evaluate_hall_create
  create_hall_guarded input s no_collision sound =
      elim (Result-cases (authorize_on service.enforcer (hall_request input) s.world).0) [
        | inl (e, failed) ↦ inr (rw failed refl)
        | inr (a, decided) ↦ elim (Bool-cases a.allow) [
          | inl allowed ↦ inl (
              authorize_on-Permits service.enforcer (hall_request input) s.world a no_collision
                sound decided allowed)
          | inr refused ↦ inr (
              rw (decided, refused)
                ((create_refused-store).left (record s {
                  world = (authorize_on service.enforcer (hall_request input) s.world).1;
                })))
        ]
      ]
