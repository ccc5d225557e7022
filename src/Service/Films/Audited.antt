-- ===== src/Service/Films/Audited.antt =====
-- Refusals are audited and change no film.
use poc_dcs.Enforcer.{
  evaluate_film_update_time, evaluate, authorization, AuthorizationDecision, FilmCreatePlain,
}
use poc_dcs.Common.{
  Text, ℤ, ◌≡◌, refl, ap, ◌∙◌, [], Result, ok, err, forbidden, false, not, if◌then◌else◌,
}
use poc_dcs.Action.{Act}
use poc_dcs.Types.{Principal, RequestContext, Decision}
use poc_dcs.Pip
use poc_dcs.Enforcer.{asking, decide_on, enforce_film_create, FilmCreateEncrypted, film_crypto}
use poc_dcs.Enforcer.Authorize.{
  decide_on-allow, not-allowed, NoCollision, IsSound, enforce_film_create_permitted,
  enforce_film_create_forbidden,
}
use poc_dcs.Pdp.Allows.{Permits}
use poc_dcs.Service.System.{System, write_audit_log}
use poc_dcs.Service.Films.{
  update_refused, update_allowed, update_log, FilmService, FilmOutput, FilmCreateInput, create,
  update_time, film_log, write_film_perf, after_encryption,
}

module _ {R : Type 0} (service : FilmService R) (principal : Principal)
    (request : RequestContext) where
  abbrev pub create_request : Pip.Input
  create_request = asking principal request "film.create" "film" [] [] []

  -- Where the configuration does not permit `film.create` to the role, a creation that reaches a
  -- decision is refused; the store is untouched, one entry is given to the perf writer and one of the
  -- refusal to the audit writer, if there are such writers.
  pub create_refused :
      (input : FilmCreateInput) (s : System R) (d : Decision)
      → NoCollision service.enforcer.digests
      → IsSound service.enforcer s.world
      → (decide_on service.enforcer create_request s.world).0 ≡ ok d
      → ¬ Permits service.enforcer.pdp_config "film.create" principal.role
      → create service principal request input s ≡ (
        err forbidden,
        write_audit_log service.logs (film_log principal request "film.create" [] "deny") (
            write_film_perf service principal request "film.create"
              (record s { world = (decide_on service.enforcer create_request s.world).1 })),
      )
  unfolding create
  create_refused input s d no_collision sound decided not_permitted =
      ap (λ r. after_encryption service principal request input (r.0, record s { world = r.1 }))
        (enforce_film_create_forbidden service.enforcer principal request
          (record { title = input.title; time_elapsed = input.time_elapsed }) s.world d no_collision
          sound decided not_permitted)

  after_encryption-ok :
      (input : FilmCreateInput) (r : Result FilmCreateEncrypted) (s : System R) (out : FilmOutput)
      → (after_encryption service principal request input (r, s)).0 ≡ ok out
      → (c : FilmCreateEncrypted) × (r ≡ ok c)
  after_encryption-ok input (ok c) s out h = (c, refl)
  after_encryption-ok input (err e) s out h = cc

  -- A creation that is answered with a film was permitted to the role by the configuration.
  pub create_permitted :
      (input : FilmCreateInput) (s : System R) (out : FilmOutput)
      → NoCollision service.enforcer.digests
      → IsSound service.enforcer s.world
      → (create service principal request input s).0 ≡ ok out
      → Permits service.enforcer.pdp_config "film.create" principal.role
  unfolding create
  create_permitted input s out no_collision sound h =
      let plain : FilmCreatePlain = record {
        title = input.title;
        time_elapsed = input.time_elapsed;
      } in
      let m = enforce_film_create service.enforcer principal request plain s.world in
      let (c, encrypted) = after_encryption-ok input m.0 (record s { world = m.1 }) out h in
      (enforce_film_create_permitted service.enforcer principal request plain s.world c no_collision
        sound encrypted).0

  abbrev pub update_request : Text → Pip.Input
  update_request id = asking principal request "film.update_time" "film" id [] film_crypto

  -- What `update_time` does with the authorization it got.
  abbrev after_authorization : Text → ℤ → AuthorizationDecision → Act (System R) FilmOutput
  after_authorization id time_elapsed decision =
      if not decision.allow
      then update_refused service principal request id decision.decision_hash
      else update_allowed service principal request id time_elapsed decision.decision_hash

  after_refusal :
      (id : Text) (time_elapsed : ℤ) (decision : AuthorizationDecision) (s : System R)
      → decision.allow ≡ false
      → after_authorization id time_elapsed decision s ≡ (
        err forbidden,
        write_audit_log service.logs
            (update_log service principal request id "deny" decision.decision_hash)
            s,
      )
  after_refusal id time_elapsed decision s h =
      ap
        (λ b.
          (if not b
              then update_refused service principal request id decision.decision_hash
              else update_allowed service principal request id time_elapsed decision.decision_hash)
            s)
        h

  -- Where the configuration does not permit `film.update_time` to the role, an update that reaches a
  -- decision is refused; the store is untouched, and one entry of the refusal, with the decision's
  -- hash, is given to the audit writer, if there is one.
  pub update_time_refused :
      (id : Text) (time_elapsed : ℤ) (s : System R) (d : Decision)
      → NoCollision service.enforcer.digests
      → IsSound service.enforcer s.world
      → (decide_on service.enforcer (update_request id) s.world).0 ≡ ok d
      → ¬ Permits service.enforcer.pdp_config "film.update_time" principal.role
      → update_time service principal request id time_elapsed s ≡ (
        err forbidden,
        write_audit_log service.logs
            (update_log service principal request id "deny" d.hash)
            (record s { world = (decide_on service.enforcer (update_request id) s.world).1 }),
      )
  unfolding update_time evaluate_film_update_time evaluate
  update_time_refused id time_elapsed s d no_collision sound decided not_permitted =
      let w = (decide_on service.enforcer (update_request id) s.world).1 in
      rw decided (
        after_refusal id time_elapsed (authorization d) (record s { world = w })
          (decide_on-allow service.enforcer (update_request id) s.world d no_collision sound decided
            ∙ not-allowed service.enforcer "film.update_time" principal.role not_permitted))
