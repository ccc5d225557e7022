-- ===== src/Service/Films.antt =====
-- internal/service/film_workflow.go.
pub mod Audited
pub mod Listing
use poc_dcs.Common.{
  String, Text, bytes, ℤ, Bool, true, false, not, ◌&&◌, List, [], ◌∷◌, ◌++◌, Map, Result, ok, err,
  Error, forbidden, not_found, elem, string_eq, if◌then◌else◌,
}
use poc_dcs.Action.{Act, pure, raise, continue, ◌>>=◌}
use poc_dcs.Strconv.{itoa}
use poc_dcs.Types.{Principal, RequestContext}
use poc_dcs.World.{World}
use poc_dcs.Pep.Payload.{Value, int, text}
use poc_dcs.Enforcer.{
  Parts, FilmReadInput, FilmReadResult, FilmCreatePlain, FilmCreateEncrypted, AuthorizationDecision,
  enforce_film_read, enforce_film_create, evaluate_film_update_time,
}
use poc_dcs.Service.System.{
  System, AuditLog, Logging, on_world, on_store, is_forbidden, audit_log, write_audit_log, audit,
  write_perf_log,
}
use poc_dcs.Repo.Films.{FilmRecord}
use poc_dcs.Repo.Films

pub record FilmOutput : Type 0 where
  pub id : Text
  pub title : Text
  pub time_elapsed : Value

pub record FilmCreateInput : Type 0 where
  pub title : Text
  pub time_elapsed : ℤ

-- The interface that the service asks of a store of films.
pub record FilmRepository (R : Type 0) : Type 0 where
  pub list_by_tenant : String → Act R (List FilmRecord)
  pub update_time_ciphertext : String → Text → Text → Act R FilmRecord
  pub create : String → Text → Text → Act R FilmRecord

-- The repository that keeps its films in memory.
abbrev pub memory_repository : FilmRepository Films.Films
memory_repository = record {
  list_by_tenant = λ tenant films. (ok (Films.list_by_tenant tenant films), films);
  update_time_ciphertext = Films.update_time_ciphertext;
  create = λ tenant title ct films.
      let (film, films') = Films.create tenant title ct films in (ok film, films');
}

-- `map_order` is the order in which Go goes through the keys of a map.
pub record FilmService (R : Type 0) : Type 0 where
  pub repo : FilmRepository R
  pub enforcer : Parts
  pub logs : Logging
  pub map_order : List String → List String

-- `fmt.Errorf("%w: %v", ErrNotFound, err)`
abbrev pub or_not_found : {A : Type 0} → Result A → Result A
or_not_found (ok a) = ok a
or_not_found (err e) = err not_found

-- The keys of the set that a loop of `set[field] = true` builds.
abbrev pub note_fields : List String → List String → List String
note_fields [] set = set
note_fields (field ∷ fields) set =
    let next = if elem field set then set else set ++ (field ∷ []) in note_fields fields next

pub record Noted : Type 0 where
  pub decrypted : List String
  pub masked : List String
  pub denied : List String

abbrev pub note_result : FilmReadResult → Noted → Noted
note_result result noted = record {
  decrypted = note_fields result.fields_decrypted noted.decrypted;
  masked = note_fields result.fields_masked noted.masked;
  denied = note_fields result.fields_denied noted.denied;
}

abbrev pub read_input : FilmRecord → FilmReadInput
read_input film = record {
  film_id = film.id;
  title = film.title;
  time_elapsed_ct = film.time_elapsed_ct;
}

abbrev pub output : FilmRecord → FilmReadResult → FilmOutput
output film result = record { id = film.id; title = film.title; time_elapsed = result.time_elapsed }

abbrev pub film_log : Principal → RequestContext → String → Text → String → AuditLog
film_log principal request action id outcome = audit_log principal request action "film" id outcome

abbrev pub write_film_perf :
    {R : Type 0} → FilmService R → Principal → RequestContext → String → System R → System R
write_film_perf service principal request action =
    write_perf_log service.logs service.logs.timings principal request action "film"

abbrev pub film_perf :
    {R : Type 0} → FilmService R → Principal → RequestContext → String → Act (System R) (Unit {0})
film_perf service principal request action s =
    (ok tt, write_film_perf service principal request action s)

module _ {R : Type 0} (service : FilmService R) (principal : Principal)
    (request : RequestContext) where
  abbrev pub read : FilmRecord → Act (System R) FilmReadResult
  read film = on_world (enforce_film_read service.enforcer principal request (read_input film))

  abbrev pub created_log : FilmCreateInput → FilmRecord → FilmReadResult → AuditLog
  created_log input film result =
      record (film_log principal request "film.create" film.id "allow") {
        fields_decrypted = result.fields_decrypted;
        fields_masked = result.fields_masked;
        fields_denied = result.fields_denied;
        details =
            ("title", text input.title)
            ∷ ("new_time_elapsed", int input.time_elapsed)
            ∷ ("film_id", text film.id)
            ∷ [];
      }

  -- After the encryption: persist, shape the answer by the read policy, audit.
  abbrev pub persist : FilmCreateInput → FilmCreateEncrypted → Act (System R) FilmOutput
  persist input encrypted = do
    film ←
        on_store (service.repo.create principal.tenant_id encrypted.title encrypted.time_elapsed_ct)
    result ← read film
    written ← audit service.logs (created_log input film result)
    measured ← film_perf service principal request "film.create"
    pure (output film result)

  -- The enforcer never returns the error that carries a hash, so the hash of a refusal is empty.
  abbrev pub after_encryption :
      FilmCreateInput → Result FilmCreateEncrypted × System R → Result FilmOutput × System R
  after_encryption input (err e, s) =
      let s' = write_film_perf service principal request "film.create" s in
      (
        err e,
        if is_forbidden e
            then write_audit_log service.logs (film_log principal request "film.create" [] "deny")
                s'
            else s',
      )
  after_encryption input (ok encrypted, s) = persist input encrypted s

  unfoldable pub create : FilmCreateInput → Act (System R) FilmOutput
  create input s = after_encryption input (
      on_world
        (enforce_film_create service.enforcer principal request
          (record { title = input.title; time_elapsed = input.time_elapsed }))
        s)

  -- The loop over the films, with the fields noted so far.
  unfoldable pub list_films : List FilmRecord → Noted → Act (System R) (List FilmOutput × Noted)
  list_films [] noted = pure ([], noted)
  list_films (film ∷ films) noted = do
    result ← read film
    rest ← list_films films (note_result result noted)
    pure (output film result ∷ rest.0, rest.1)

  abbrev pub listed_log : Noted → AuditLog
  listed_log noted = record (film_log principal request "film.read" [] "allow") {
    fields_decrypted = service.map_order noted.decrypted;
    fields_masked = service.map_order noted.masked;
    fields_denied = service.map_order noted.denied;
  }

  abbrev pub nothing_noted : Noted
  nothing_noted = record { decrypted = []; masked = []; denied = [] }

  unfoldable pub list : Act (System R) (List FilmOutput)
  unfolding list_films
  list = do
    films ← on_store (service.repo.list_by_tenant principal.tenant_id)
    shown ← list_films films nothing_noted
    written ← audit service.logs (listed_log shown.1)
    measured ← film_perf service principal request "film.read"
    pure shown.0

  -- `UpdateTimeCiphertext`, any of whose errors becomes `ErrNotFound`.
  abbrev pub update_store : Text → Text → Act (System R) FilmRecord
  update_store id ct s =
      let (r, s') = on_store (service.repo.update_time_ciphertext principal.tenant_id id ct) s in
      (or_not_found r, s')

  abbrev pub update_log : Text → String → String → AuditLog
  update_log id outcome hash = record (film_log principal request "film.update_time" id outcome) {
    decision_hash = hash;
  }

  abbrev pub update_allowed : Text → ℤ → String → Act (System R) FilmOutput
  update_allowed id time_elapsed hash = do
    ct ← on_world (service.enforcer.kms.encrypt (itoa time_elapsed))
    film ← update_store id ct
    result ← read film
    written ← audit service.logs (update_log id "allow" hash)
    measured ← film_perf service principal request "film.update_time"
    pure (output film result)

  abbrev pub update_refused : Text → String → Act (System R) FilmOutput
  update_refused id hash = do
    written ← audit service.logs (update_log id "deny" hash)
    raise forbidden

  unfoldable pub update_time : Text → ℤ → Act (System R) FilmOutput
  update_time id time_elapsed = do
    decision ← on_world (evaluate_film_update_time service.enforcer principal request id)
    if not decision.allow
        then update_refused id decision.decision_hash
        else update_allowed id time_elapsed decision.decision_hash
