-- ===== src/Service/Spectators.antt =====
-- internal/service/spectator_service.go, with the types of spectator_types.go.
pub mod Searching
pub mod Creating
use poc_dcs.Common.{
  String, Text, ℤ, pos, ℕ, Bool, not, ◌&&◌, Option, none, some, List, [], ◌∷◌, Result, ok, err,
  forbidden, not_found, string_eq, ◌==◌, if◌then◌else◌, length,
}
use poc_dcs.Action.{Act, pure, raise, ◌>>=◌}
use poc_dcs.Types.{Principal, RequestContext}
use poc_dcs.Runtime.{dcs_enabled}
use poc_dcs.World.{World}
use poc_dcs.Kms.{normalize_external_id}
use poc_dcs.Pep.Mask.{mask_uuid}
use poc_dcs.Pep.Payload.{Value, int, text}
use poc_dcs.Enforcer.{
  Parts, AuthorizationDecision, SpectatorCreatePlain, SpectatorCreateEncrypted, SpectatorReadInput,
  SpectatorReadResult, enforce_spectator_create, enforce_spectator_read, evaluate_spectator_search,
}
use poc_dcs.Repo.Spectators
use poc_dcs.Repo.Spectators.{Spectator}
use poc_dcs.Repo.Films
use poc_dcs.Repo.Halls
use poc_dcs.Service.Halls.{HallRepository, fresh_uuid}
use poc_dcs.Service.System.{
  System, AuditLog, Logging, on_world, on_store, is_forbidden, audit_log, write_audit_log, audit,
  write_perf_log, measure, total_only,
}

pub record SpectatorOutput : Type 0 where
  pub id : Value
  pub hall_id : Text
  pub name : Value
  pub age : Value
  pub external_id : Value

pub record SpectatorCreateInput : Type 0 where
  pub hall_id : Text
  pub name : Text
  pub age : ℤ
  pub external_id : Text

-- What the service asks of a store of spectators.
pub record SpectatorRepository (R : Type 0) : Type 0 where
  pub create : Spectator → Act R (Unit {0})
  pub find_by_external_id_lookup : String → Text → Act R (List Spectator)

-- The stores in memory.
pub record Cinema : Type 0 where
  pub films : Films.Films
  pub halls : Halls.HallRepository
  pub spectators : List Spectator

abbrev pub memory_spectators : SpectatorRepository Cinema
memory_spectators = record {
  create = λ spectator c.
      (ok tt, record c { spectators = Spectators.create_spectator spectator c.spectators });
  find_by_external_id_lookup =
      λ tenant digest c. (ok (Spectators.find_by_external_id_lookup tenant digest c.spectators), c);
}

-- `hmac` is that of the enforcer's parts, and `new_uuid` is google/uuid, by the moment.
pub record SpectatorService (R : Type 0) : Type 0 where
  pub repo : SpectatorRepository R
  pub find_hall : String → Text → Act R (Option Halls.Hall)
  pub enforcer : Parts
  pub logs : Logging
  pub new_uuid : ℕ → Text

-- The service over the stores in memory.
abbrev pub in_memory : Parts → Logging → (ℕ → Text) → SpectatorService Cinema
in_memory enforcer logs new_uuid = record {
  repo = memory_spectators;
  find_hall = λ tenant id c. (ok (Halls.find_by_id tenant id c.halls), c);
  enforcer = enforcer;
  logs = logs;
  new_uuid = new_uuid;
}

abbrev pub default_pepper_path : String
default_pepper_path = "secret/dcs"

module _ {R : Type 0} (service : SpectatorService R) (principal : Principal)
    (request : RequestContext) where
  abbrev pub spectator_perf : String → Act (System R) (Unit {0})
  spectator_perf action =
      measure service.logs (total_only service.logs) principal request action "spectator"

  abbrev pub spectator_log : String → Text → String → AuditLog
  spectator_log action id outcome = audit_log principal request action "spectator" id outcome

  abbrev pub read_input : Spectator → SpectatorReadInput
  read_input spectator = record {
    spectator_id = spectator.id;
    hall_id = spectator.hall_id;
    name_ct = spectator.name_ct;
    age_ct = spectator.age_ct;
    external_id_ct = spectator.external_id_ct;
  }

  abbrev pub read_spectator : Spectator → Act (System R) SpectatorReadResult
  read_spectator spectator =
      on_world (enforce_spectator_read service.enforcer principal request (read_input spectator))

  -- The identifier is masked for everyone but an administrator while the policies are on.
  unfoldable pub shown_id : Text → World → Value
  unfolding mask_uuid
  shown_id id w =
      if dcs_enabled w.settings && not (principal.role == "admin")
      then text (mask_uuid id)
      else text id

  abbrev pub output : Spectator → SpectatorReadResult → World → SpectatorOutput
  output spectator result w = record {
    id = shown_id spectator.id w;
    hall_id = spectator.hall_id;
    name = result.name;
    age = result.age;
    external_id = result.external_id;
  }

  abbrev pub show_spectator : Spectator → SpectatorReadResult → Act (System R) SpectatorOutput
  show_spectator spectator result s = (ok (output spectator result s.world), s)

  abbrev pub plain_of : SpectatorCreateInput → SpectatorCreatePlain
  plain_of input = record {
    hall_id = input.hall_id;
    name = input.name;
    age = input.age;
    external_id = input.external_id;
  }

  abbrev pub new_spectator : Text → SpectatorCreateEncrypted → Spectator
  new_spectator id encrypted = record {
    tenant_id = principal.tenant_id;
    id = id;
    hall_id = encrypted.hall_id;
    name_ct = encrypted.name_ct;
    age_ct = encrypted.age_ct;
    external_id_ct = encrypted.external_id_ct;
    external_id_lookup = encrypted.external_id_lookup;
  }

  abbrev pub created_log : SpectatorCreateInput → Spectator → SpectatorReadResult → AuditLog
  created_log input spectator result =
      record (spectator_log "spectator.create" spectator.id "allow") {
        fields_decrypted = result.fields_decrypted;
        fields_masked = result.fields_masked;
        fields_denied = result.fields_denied;
        details = ("hall_id", text input.hall_id) ∷ [];
      }

  -- After the insertion: shape the answer by the read policy, audit, measure.
  abbrev pub answer_created : SpectatorCreateInput → Spectator → Act (System R) SpectatorOutput
  answer_created input spectator = do
    result ← read_spectator spectator
    shown ← show_spectator spectator result
    written ← audit service.logs (created_log input spectator result)
    measured ← spectator_perf "spectator.create"
    pure shown

  abbrev pub insert_spectator :
      SpectatorCreateInput → SpectatorCreateEncrypted → Act (System R) SpectatorOutput
  insert_spectator input encrypted = do
    id ← on_world (fresh_uuid service.new_uuid)
    stored ← on_store (service.repo.create (new_spectator id encrypted))
    answer_created input (new_spectator id encrypted)

  -- The enforcer never returns the error that carries a hash and details.
  abbrev pub after_encryption :
      SpectatorCreateInput
      → Result SpectatorCreateEncrypted × System R
      → Result SpectatorOutput × System R
  after_encryption input (err e, s) =
      let s' = (spectator_perf "spectator.create" s).1 in
      (
        err e,
        if is_forbidden e
            then write_audit_log service.logs (spectator_log "spectator.create" [] "deny") s'
            else s',
      )
  after_encryption input (ok encrypted, s) = insert_spectator input encrypted s

  abbrev pub create_in_hall : SpectatorCreateInput → Act (System R) SpectatorOutput
  create_in_hall input s =
      after_encryption input
        (on_world (enforce_spectator_create service.enforcer principal request (plain_of input)) s)

  abbrev pub after_hall : SpectatorCreateInput → Option Halls.Hall → Act (System R) SpectatorOutput
  after_hall input none = raise not_found
  after_hall input (some hall) = create_in_hall input

  unfoldable pub create : SpectatorCreateInput → Act (System R) SpectatorOutput
  create input = do
    found ← on_store (service.find_hall principal.tenant_id input.hall_id)
    after_hall input found

  -- The loop over the spectators found.
  unfoldable pub show_spectators : List Spectator → Act (System R) (List SpectatorOutput)
  unfolding shown_id
  show_spectators [] = pure []
  show_spectators (spectator ∷ spectators) = do
    result ← read_spectator spectator
    shown ← show_spectator spectator result
    rest ← show_spectators spectators
    pure (shown ∷ rest)

  abbrev pub searched_log : List SpectatorOutput → AuditLog
  searched_log out = record (spectator_log "search.spectator" [] "allow") {
    details = ("matches", int (pos (length out))) ∷ [];
  }

  abbrev pub search_refused : Act (System R) (List SpectatorOutput)
  search_refused = do
    written ← audit service.logs (spectator_log "search.spectator" [] "deny")
    measured ← spectator_perf "search.spectator"
    raise forbidden

  abbrev pub answer_shown : List SpectatorOutput → Act (System R) (List SpectatorOutput)
  answer_shown out = do
    written ← audit service.logs (searched_log out)
    measured ← spectator_perf "search.spectator"
    pure out

  abbrev pub answer_found : List Spectator → Act (System R) (List SpectatorOutput)
  answer_found spectators = do out ← show_spectators spectators; answer_shown out

  abbrev pub search_by : (digest : Text) → Act (System R) (List SpectatorOutput)
  search_by digest = do
    spectators ← on_store (service.repo.find_by_external_id_lookup principal.tenant_id digest)
    answer_found spectators

  -- The pepper is that of the constant path, not of the path that the enforcer is configured with.
  abbrev pub search_allowed : Text → Act (System R) (List SpectatorOutput)
  search_allowed external_id = do
    pepper ← on_world (service.enforcer.kms.get_pepper default_pepper_path)
    search_by (service.enforcer.hmac pepper (normalize_external_id external_id))

  abbrev pub after_decision : Text → AuthorizationDecision → Act (System R) (List SpectatorOutput)
  after_decision external_id decision =
      if not decision.allow then search_refused else search_allowed external_id

  unfoldable pub search : Text → Act (System R) (List SpectatorOutput)
  unfolding show_spectators
  search external_id = do
    decision ← on_world (evaluate_spectator_search service.enforcer principal request)
    after_decision external_id decision
