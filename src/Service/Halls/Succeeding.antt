-- ===== src/Service/Halls/Succeeding.antt =====
-- Where nothing outside fails, a permitted creation of a hall succeeds.
use poc_dcs.Common.{Text, suc, pos, ◌≡◌, refl, sym, ◌∙◌, ok, subst}
use poc_dcs.Action.{Act, pure, ◌>>=◌}
use poc_dcs.Action.Leaves.{Leaves, bind-Leaves, pure-Leaves}
use poc_dcs.Action.Answers.{Answers, pure-Answers, bind-Answers}
use poc_dcs.Action.Ensures.{Ensures, pure-Ensures, bind-Ensures}
use poc_dcs.Types.{Principal, RequestContext}
use poc_dcs.Pdp.Allows.{Permits, allow_of_permits}
use poc_dcs.Enforcer.{authorize_on, evaluate_hall_create, enforce_hall_read}
use poc_dcs.Enforcer.Answering.{IsTotal, authorize_on-Answers, enforce_hall_read-Answers}
use poc_dcs.Enforcer.Authorize.{NoCollision, IsSound, authorize_on-allow}
use poc_dcs.Repo.Halls.{Hall}
use poc_dcs.Service.System.{System}
use poc_dcs.Service.System.Kept.{store_of, on_world-store}
use poc_dcs.Service.Halls.{
  HallService, HallOutput, HallCreateInput, create_hall, create_allowed, new_hall, created_input,
  read_hall, hall_perf, hall_output,
}
use poc_dcs.Service.Halls.Guarded.{hall_request, hall_perf-store}

-- The store of halls takes every hall.
abbrev pub TakesHalls : {R : Type 0} → HallService R → Type 0
TakesHalls {R} service = (hall : Hall) (r : R) → (service.repo.create hall r).0 ≡ ok tt

module _ {R : Type 0} (service : HallService R) (principal : Principal)
    (request : RequestContext) where
  -- The end of a creation, after the insertion.
  abbrev pub shaped : Text → HallCreateInput → Act (System R) HallOutput
  shaped id input = do
    result ← read_hall service principal request (created_input service principal request id input)
    measured ← hall_perf service principal request "hall.create"
    pure (hall_output service principal request id result (pos 0))

  shaped-Answers :
      (id : Text) (input : HallCreateInput)
      → IsTotal service.enforcer.store
      → Answers (shaped id input)
  shaped-Answers id input total =
      let hall = created_input service principal request id input in
      let reads = enforce_hall_read-Answers service.enforcer total principal request hall in
      bind-Answers (read_hall service principal request hall)
        (record { answer = λ s. reads.answer s.world })
        (λ result.
          bind-Answers (hall_perf service principal request "hall.create")
            (record { answer = λ s. (tt, refl) })
            (λ measured. pure-Answers (hall_output service principal request id result (pos 0))))

  pub shaped-store : (id : Text) (input : HallCreateInput) → Leaves store_of (shaped id input)
  shaped-store id input =
      bind-Leaves
        (on_world-store (
          enforce_hall_read service.enforcer principal request
            (created_input service principal request id input)))
        (λ result.
          bind-Leaves (hall_perf-store service principal request "hall.create") (λ measured.
            pure-Leaves store_of (hall_output service principal request id result (pos 0))))

  pub shaped-id :
      (id : Text) (input : HallCreateInput) → Ensures (λ out. out.id ≡ id) (shaped id input)
  shaped-id id input =
      bind-Ensures
        (read_hall service principal request (created_input service principal request id input))
        (λ result _ _.
          bind-Ensures (hall_perf service principal request "hall.create") (λ measured _ _.
            pure-Ensures (hall_output service principal request id result (pos 0)) refl))

  -- What a creation that succeeded made of the store.
  pub record IsCreated (input : HallCreateInput) (s : System R) : Type 0 where
    pub output : HallOutput
    pub answered : (create_hall service principal request input s).0 ≡ ok output
    pub stored :
        (create_hall service principal request input s).1.store
        ≡ (service.repo.create (new_hall service principal request output.id input) s.store).1

  create_allowed_lem :
      (input : HallCreateInput) (s : System R)
      → IsTotal service.enforcer.store
      → TakesHalls service
      → (out : HallOutput) × ((create_allowed service principal request input s).0 ≡ ok out)
        × ((create_allowed service principal request input s).1.store
            ≡ (service.repo.create (new_hall service principal request out.id input) s.store).1)
  unfolding create_allowed
  create_allowed_lem input s total takes =
      let id : Text = service.new_uuid s.world.tick in
      let hall = new_hall service principal request id input in
      let s1 : System R = record s {
        world = record s.world { tick = suc s.world.tick };
        store = (service.repo.create hall s.store).1;
      } in
      let (out, made) = (shaped-Answers id input total).answer s1 in
      let named = (shaped-id id input).ensured s1 out made in
      (
        out,
        rw (takes hall s.store) made,
        subst
            (λ i.
              (create_allowed service principal request input s).1.store
              ≡ (service.repo.create (new_hall service principal request i input) s.store).1)
            (sym named) (rw (takes hall s.store) ((shaped-store id input).left s1)),
      )

  -- Where digests do not collide, cached decisions are those that the decision point computes,
  -- every type of resource has a classification, which may be empty, and the store takes every
  -- hall: a creation by a role that the configuration permits `hall.create` is answered with a
  -- hall, and the new hall is inserted into the store under the identifier of the answer.
  pub create_hall_succeeds :
      (input : HallCreateInput) (s : System R)
      → NoCollision service.enforcer.digests
      → IsSound service.enforcer s.world
      → IsTotal service.enforcer.store
      → TakesHalls service
      → Permits service.enforcer.pdp_config "hall.create" principal.role
      → IsCreated input s
  unfolding create_hall evaluate_hall_create
  create_hall_succeeds input s no_collision sound total takes permitted =
      let asked = hall_request service principal request input in
      let (a, decided) = (authorize_on-Answers service.enforcer total asked).answer s.world in
      let allowed =
        authorize_on-allow service.enforcer asked s.world a no_collision sound decided
        ∙ allow_of_permits service.enforcer.pdp_config "hall.create" principal.role permitted in
      let s1 : System R = record s { world = (authorize_on service.enforcer asked s.world).1 } in
      let (out, answered, stored) = create_allowed_lem input s1 total takes in
      record {
        output = out;
        answered = rw (decided, allowed) answered;
        stored = rw (decided, allowed) stored;
      }
