-- ===== src/Service/Halls.antt =====
-- internal/service/hall_service.go, with the types of hall_types.go. The service has an audit service
-- and never calls it.
pub mod Guarded
pub mod Succeeding
pub mod Contract
pub mod Held
use poc_dcs.Common.{
  String, Text, ℤ, pos, ℕ, suc, Bool, not, Option, List, [], ◌∷◌, Result, ok, err, forbidden,
  string_eq, if◌then◌else◌,
}
use poc_dcs.Action.{Act, pure, raise, ◌>>=◌}
use poc_dcs.Types.{Principal, RequestContext}
use poc_dcs.World.{World}
use poc_dcs.Enforcer.{
  Parts, HallReadInput, HallReadResult, AuthorizationDecision, enforce_hall_read,
  evaluate_hall_create,
}
use poc_dcs.Repo.Halls
use poc_dcs.Repo.Halls.{Hall, HallRecord}
use poc_dcs.Service.System.{System, Logging, on_world, on_store, measure}

pub record HallOutput : Type 0 where
  pub id : Text
  pub name : Option Text
  pub owner_user_id : Text
  pub current_film_id : Text
  pub spectator_count : ℤ

pub record HallCreateInput : Type 0 where
  pub name : Text
  pub owner_user_id : Text
  pub current_film_id : Text

-- The interface that the service asks of a store of halls; no hall is a nil pointer.
pub record HallRepository (R : Type 0) : Type 0 where
  pub list_by_tenant : String → Act R (List HallRecord)
  pub create : Hall → Act R (Unit {0})
  pub count_spectators : String → Text → Act R ℤ
  pub find_by_id : String → Text → Act R (Option Hall)

abbrev pub memory_halls : HallRepository Halls.HallRepository
memory_halls = record {
  list_by_tenant = λ tenant r. (ok (Halls.list_halls tenant r), r);
  create = λ hall r. (ok tt, Halls.create_hall hall r);
  count_spectators = λ tenant id r. (ok (Halls.count_spectators tenant id r), r);
  find_by_id = λ tenant id r. (ok (Halls.find_by_id tenant id r), r);
}

-- `new_uuid` is google/uuid, by the moment.
pub record HallService (R : Type 0) : Type 0 where
  pub repo : HallRepository R
  pub enforcer : Parts
  pub logs : Logging
  pub new_uuid : ℕ → Text

-- `uuid.New().String()`
abbrev pub fresh_uuid : (ℕ → Text) → Act World Text
fresh_uuid new_uuid w = (ok (new_uuid w.tick), record w { tick = suc w.tick })

-- `spectatorCount, _ := …`: an error leaves the zero that the stores return with it.
abbrev pub or_zero : {R : Type 0} → Act R ℤ → Act R ℤ
or_zero m r = let (answer, r') = m r in (ok (elim answer [ ok n ↦ n | err e ↦ pos 0 ]), r')

module _ {R : Type 0} (service : HallService R) (principal : Principal)
    (request : RequestContext) where
  abbrev pub read_hall : HallReadInput → Act (System R) HallReadResult
  read_hall hall = on_world (enforce_hall_read service.enforcer principal request hall)

  abbrev pub hall_perf : String → Act (System R) (Unit {0})
  hall_perf action = measure service.logs service.logs.timings principal request action "hall"

  abbrev pub record_input : HallRecord → HallReadInput
  record_input rec = record {
    hall_id = rec.id;
    name = rec.name;
    owner_user_id = rec.owner_user_id;
    current_film_id = rec.current_film_id;
  }

  abbrev pub hall_output : Text → HallReadResult → ℤ → HallOutput
  hall_output id result count = record {
    id = id;
    name = result.name;
    owner_user_id = result.owner_user_id;
    current_film_id = result.current_film_id;
    spectator_count = count;
  }

  -- The loop over the records.
  unfoldable pub show_halls : List HallRecord → Act (System R) (List HallOutput)
  show_halls [] = pure []
  show_halls (rec ∷ records) = do
    result ← read_hall (record_input rec)
    count ← on_store (or_zero (service.repo.count_spectators principal.tenant_id rec.id))
    rest ← show_halls records
    pure (hall_output rec.id result count ∷ rest)

  unfoldable pub list_halls : Act (System R) (List HallOutput)
  unfolding show_halls
  list_halls = do
    records ← on_store (service.repo.list_by_tenant principal.tenant_id)
    outputs ← show_halls records
    measured ← hall_perf "hall.read"
    pure outputs

  abbrev pub new_hall : Text → HallCreateInput → Hall
  new_hall id input = record {
    tenant_id = principal.tenant_id;
    id = id;
    name = input.name;
    owner_user_id = input.owner_user_id;
    current_film_id = input.current_film_id;
  }

  abbrev pub created_input : Text → HallCreateInput → HallReadInput
  created_input id input = record {
    hall_id = id;
    name = input.name;
    owner_user_id = input.owner_user_id;
    current_film_id = input.current_film_id;
  }

  unfoldable pub create_allowed : HallCreateInput → Act (System R) HallOutput
  create_allowed input = do
    id ← on_world (fresh_uuid service.new_uuid)
    stored ← on_store (service.repo.create (new_hall id input))
    result ← read_hall (created_input id input)
    measured ← hall_perf "hall.create"
    pure (hall_output id result (pos 0))

  abbrev pub create_refused : Act (System R) HallOutput
  create_refused = do measured ← hall_perf "hall.create"; raise forbidden

  abbrev pub after_decision : HallCreateInput → AuthorizationDecision → Act (System R) HallOutput
  after_decision input decision =
      if not decision.allow then create_refused else create_allowed input

  unfoldable pub create_hall : HallCreateInput → Act (System R) HallOutput
  unfolding create_allowed
  create_hall input = do
    decision ←
        on_world (evaluate_hall_create service.enforcer principal request input.owner_user_id)
    after_decision input decision
