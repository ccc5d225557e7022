-- ===== src/Service/Spectators/Creating.antt =====
-- What the creation of a spectator needs, and what it changes for the searches.
use poc_dcs.Common.{
  String, Text, ℕ, suc, ◌≡◌, refl, sym, ap, ◌∙◌, Option, none, some, List, [], ◌∷◌, ◌++◌, Result,
  ok, err, string_eq, text_eq, beq_refl, subst,
}
use poc_dcs.Action.Leaves.{Leaves, bind-Leaves, pure-Leaves}
use poc_dcs.Types.{Principal, RequestContext}
use poc_dcs.World.{World}
use poc_dcs.Kms.{normalize_external_id}
use poc_dcs.Pdp.Allows.{Permits}
use poc_dcs.Enforcer.{
  Parts, SpectatorCreateEncrypted, SpectatorReadResult, enforce_spectator_create,
  enforce_spectator_read,
}
use poc_dcs.Enforcer.Authorize.{NoCollision, IsSound}
use poc_dcs.Enforcer.Registered.{enforce_spectator_create-ok}
use poc_dcs.Repo.Halls
use poc_dcs.Repo.Spectators.{Spectator, find_by_external_id_lookup, create_spectator}
use poc_dcs.Repo.Spectators.Counting.{search-create_spectator}
use poc_dcs.Service.System.{System, Logging, on_world, total_only}
use poc_dcs.Service.System.Kept.{store_of, on_world-store, audit-store, measure-store}
use poc_dcs.Service.Spectators.{
  SpectatorService, SpectatorOutput, SpectatorCreateInput, Cinema, in_memory, create, after_hall,
  after_encryption, answer_created, insert_spectator, new_spectator, read_input, show_spectator,
  created_log, plain_of, spectator_perf,
}

module _ {R : Type 0} (service : SpectatorService R) (principal : Principal)
    (request : RequestContext) where
  answer_created-store :
      (input : SpectatorCreateInput) (spectator : Spectator)
      → Leaves store_of (answer_created service principal request input spectator)
  answer_created-store input spectator =
      bind-Leaves
        (on_world-store (
          enforce_spectator_read service.enforcer principal request
            (read_input service principal request spectator)))
        (λ result. bind-Leaves (show_spectator-store result) (λ shown.
          bind-Leaves
            (audit-store service.logs
              (created_log service principal request input spectator result))
            (λ written. bind-Leaves (measured-store) (λ measured. pure-Leaves store_of shown))))
    where
      show_spectator-store :
          (result : SpectatorReadResult)
          → Leaves store_of (show_spectator service principal request spectator result)
      show_spectator-store result = record { left = λ s. refl }

      measured-store : Leaves store_of (spectator_perf service principal request "spectator.create")
      measured-store =
          measure-store service.logs (total_only service.logs) principal request "spectator.create"
            "spectator"

-- One spectator of the hall was added to what its tenant finds by the digest.
pub record IsAdded (tenant : String) (digest hall_id : Text) (before after : List Spectator)
    : Type 0 where
  pub spectator : Spectator
  pub in_hall : spectator.hall_id ≡ hall_id
  pub found :
      find_by_external_id_lookup tenant digest after
      ≡ find_by_external_id_lookup tenant digest before ++ (spectator ∷ [])

pub added_lem :
    (spectator : Spectator) (tenant : String) (digest hall_id : Text) (before : List Spectator)
    → spectator.tenant_id ≡ tenant
    → spectator.external_id_lookup ≡ digest
    → spectator.hall_id ≡ hall_id
    → IsAdded tenant digest hall_id before (create_spectator spectator before)
added_lem spectator tenant digest hall_id before own digested in_hall = record {
  spectator = spectator;
  in_hall = in_hall;
  found =
      (search-create_spectator tenant digest hall_id spectator before).0
      ∙ rw (own, digested, beq_refl tenant, beq_refl digest) refl;
}

module _ (enforcer : Parts) (logs : Logging) (new_uuid : ℕ → Text) (principal : Principal)
    (request : RequestContext) where
  abbrev pub memory_service : SpectatorService Cinema
  memory_service = in_memory enforcer logs new_uuid

  -- The spectators of a state.
  abbrev pub stored_in : System Cinema → List Spectator
  stored_in s = s.store.spectators

  insert_spectator-IsAdded :
      (input : SpectatorCreateInput) (c : SpectatorCreateEncrypted) (digest : Text)
      (s : System Cinema)
      → c.hall_id ≡ input.hall_id
      → c.external_id_lookup ≡ digest
      → IsAdded principal.tenant_id digest input.hall_id
          (stored_in s)
          (stored_in (insert_spectator memory_service principal request input c s).1)
  insert_spectator-IsAdded input c digest s in_hall digested =
      let spectator = new_spectator memory_service principal request (new_uuid s.world.tick) c in
      let kept = answer_created-store memory_service principal request input spectator in
      let inserted : System Cinema = record s {
        world = record s.world { tick = suc s.world.tick };
        store = record s.store { spectators = create_spectator spectator (stored_in s) };
      } in
      subst (IsAdded principal.tenant_id digest input.hall_id (stored_in s))
        (sym (ap (λ c. c.spectators) (kept.left inserted)))
        (added_lem spectator principal.tenant_id digest input.hall_id (stored_in s) refl digested
          in_hall)

  after_encryption-ok :
      (input : SpectatorCreateInput) (r : Result SpectatorCreateEncrypted) (s : System Cinema)
      (out : SpectatorOutput)
      → (after_encryption memory_service principal request input (r, s)).0 ≡ ok out
      → (c : SpectatorCreateEncrypted) × (r ≡ ok c)
  after_encryption-ok input (ok c) s out h = (c, refl)
  after_encryption-ok input (err e) s out h = cc

  after_hall-ok :
      (input : SpectatorCreateInput) (found : Option Halls.Hall) (s : System Cinema)
      (out : SpectatorOutput)
      → (after_hall memory_service principal request input found s).0 ≡ ok out
      → (hall : Halls.Hall) × (found ≡ some hall)
  after_hall-ok input none s out h = cc
  after_hall-ok input (some hall) s out h = (hall, refl)

  -- With the stores in memory and one pepper, a creation that is answered with a spectator was
  -- permitted to the role by the configuration, names a hall of the tenant, and adds one spectator of
  -- that hall to what the tenant finds by the digest of every identifier with the same normal form.
  pub create_searchable :
      (input : SpectatorCreateInput) (s : System Cinema) (out : SpectatorOutput) (id pepper : Text)
      → NoCollision enforcer.digests
      → IsSound enforcer s.world
      → ((w : World) → (enforcer.kms.get_pepper enforcer.pepper_path w).0 ≡ ok pepper)
      → normalize_external_id id ≡ normalize_external_id input.external_id
      → (create memory_service principal request input s).0 ≡ ok out
      → Permits enforcer.pdp_config "spectator.create" principal.role
        × (hall : Halls.Hall) × (Halls.find_by_id principal.tenant_id input.hall_id s.store.halls
            ≡ some hall)
        × IsAdded principal.tenant_id
            (enforcer.hmac pepper (normalize_external_id id))
            input.hall_id
            (stored_in s)
            (stored_in (create memory_service principal request input s).1)
  unfolding create
  create_searchable input s out id pepper no_collision sound one_pepper same h =
      let (hall, found) =
        after_hall-ok input (Halls.find_by_id principal.tenant_id input.hall_id s.store.halls) s out
          h in
      let h' =
        subst (λ o. (after_hall memory_service principal request input o s).0 ≡ ok out) found h in
      let encrypted =
        on_world
          (enforce_spectator_create enforcer principal request
            (plain_of memory_service principal request input))
          s in
      let (c, made) = after_encryption-ok input encrypted.0 encrypted.1 out h' in
      let (permitted, registered) =
        enforce_spectator_create-ok enforcer principal request
          (plain_of memory_service principal request input) s.world c no_collision sound made in
      let same_pepper : registered.pepper ≡ pepper =
        cc (registered.peppered, one_pepper registered.world) in
      let digested : c.external_id_lookup ≡ enforcer.hmac pepper (normalize_external_id id) =
        registered.digested
        ∙ ap (λ k. enforcer.hmac k (normalize_external_id input.external_id)) same_pepper
        ∙ ap (enforcer.hmac pepper) (sym same) in
      (
        permitted,
        hall,
        found,
        rw (found, made)
            (insert_spectator-IsAdded input c (enforcer.hmac pepper (normalize_external_id id))
              encrypted.1 registered.in_hall digested),
      )
