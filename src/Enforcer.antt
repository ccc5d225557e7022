-- ===== src/Enforcer.antt =====
-- internal/dcs/enforcer: information, decision and enforcement for each request. The types
-- Principal and RequestContext of internal/service have the fields of those of internal/dcs/types,
-- and the conversions copy them; the spans that measure time are not modelled here.
mod Data
pub mod Authorize
pub mod Halls
pub mod Registered
pub mod Answering
pub mod Stored
pub use Data.*
use poc_dcs.Common.{
  String, Text, bytes, ℤ, Bool, true, false, not, Option, none, some, List, [], ◌∷◌, ◌++◌, Map,
  lookup, string_eq, Error, forbidden, if◌then◌else◌,
}
use poc_dcs.Action.{Act, pure, raise, ◌>>=◌}
use poc_dcs.Strconv.{itoa}
use poc_dcs.Types.{
  Principal, RequestContext, PolicyInput, Decision, FieldAction, mask_after_decrypt,
}
use poc_dcs.Config.{PdpConfig}
use poc_dcs.Runtime.{dcs_enabled}
use poc_dcs.World.{Oracle, World}
use poc_dcs.Pdp
use poc_dcs.Pdp.{Digests}
use poc_dcs.Pip
use poc_dcs.Pip.{ClassificationStore}
use poc_dcs.Kms.{CryptoService, decryptor, normalize_external_id}
use poc_dcs.Pep.Mask.{mask_uuid}
use poc_dcs.Pep.Payload.{Value, null, ApplyResult}
use poc_dcs.Pep.Film
use poc_dcs.Pep.Spectator

-- What the enforcer is built from. `hmac` is HMAC-SHA256, and `visit` the order in which Go goes
-- through the map of a spectator's three ciphertexts.
pub record Parts : Type 0 where
  pub oracle : Oracle
  pub digests : Digests
  pub pdp_config : PdpConfig
  pub pip_config : Pip.Config
  pub store : ClassificationStore
  pub kms : CryptoService
  pub pepper_path : String
  pub hmac : Text → Text → Text
  pub visit : World → Map String Text → Map String Text

abbrev pub stored_film : FilmCreatePlain → Text → FilmCreateEncrypted
stored_film input time_elapsed_ct = record {
  title = input.title;
  time_elapsed_ct = time_elapsed_ct;
}

-- A missing key of a payload is nil.
abbrev pub value_or_nil : Option Value → Value
value_or_nil none = null
value_or_nil (some v) = v

abbrev pub is_mask : Option FieldAction → Bool
is_mask (some mask_after_decrypt) = true
is_mask _ = false

-- One identifier of a hall, and its name in the list of masked fields.
abbrev pub hall_field : Map String FieldAction → String → Text → Text × List String
hall_field actions field value =
    if is_mask (lookup field actions) then (mask_uuid value, field ∷ []) else (value, [])

unfoldable pub shape_hall : Map String FieldAction → HallReadInput → HallReadResult
shape_hall actions hall =
    let (owner, masked) = hall_field actions "owner_user_id" hall.owner_user_id in
    let (film, masked') = hall_field actions "current_film_id" hall.current_film_id in
    record {
      name = some hall.name;
      owner_user_id = owner;
      current_film_id = film;
      fields_masked = masked ++ masked';
      fields_denied = [];
    }

abbrev pub authorization : Decision → AuthorizationDecision
authorization d = record { allow = d.allow; reason = d.reason; decision_hash = d.hash }

abbrev pub film_crypto : Map String (Map String String)
film_crypto = ("time_elapsed", ("ciphertext_field", "time_elapsed_ct") ∷ []) ∷ []

abbrev pub spectator_crypto : Map String (Map String String)
spectator_crypto =
    ("name", ("ciphertext_field", "name_ct") ∷ [])
    ∷ ("age", ("ciphertext_field", "age_ct") ∷ [])
    ∷ ("external_id", ("ciphertext_field", "external_id_ct") ∷ [])
    ∷ []

module _ (principal : Principal) (request : RequestContext) where
  abbrev pub asking :
      (action type : String) → (id owner : Text) → Map String (Map String String) → Pip.Input
  asking action type id owner crypto = record {
    principal = principal;
    action = action;
    resource_type = type;
    resource_id = id;
    owner_id = owner;
    labels = [];
    request = request;
    crypto_meta = crypto;
  }

module _ (e : Parts) where
  -- `e.pdp.Evaluate`, whose second result the enforcer drops.
  unfoldable pub pdp_decision : PolicyInput → Act World Decision
  pdp_decision input w =
      let (answer, w') = Pdp.evaluate e.oracle e.digests e.pdp_config input w in pure answer.0 w'

  -- Build the input, then evaluate it.
  unfoldable pub decide_on : Pip.Input → Act World Decision
  unfolding pdp_decision
  decide_on input = do built ← Pip.build e.oracle e.store e.pip_config input; pdp_decision built

  unfoldable pub authorize_on : Pip.Input → Act World AuthorizationDecision
  unfolding decide_on
  authorize_on input = do decision ← decide_on input; pure (authorization decision)

  module _ (principal : Principal) (request : RequestContext) where
    -- `evaluate` of film.go
    unfoldable pub evaluate : String → Text → Act World Decision
    unfolding decide_on
    evaluate action id = decide_on (asking principal request action "film" id [] film_crypto)

    unfoldable pub evaluate_film_create : Act World AuthorizationDecision
    unfolding evaluate
    evaluate_film_create = do decision ← evaluate "film.create" []; pure (authorization decision)

    unfoldable pub evaluate_film_update_time : Text → Act World AuthorizationDecision
    unfolding evaluate
    evaluate_film_update_time film_id = do
      decision ← evaluate "film.update_time" film_id
      pure (authorization decision)

    -- The reads of the logs do not pass on the hash.
    unfoldable pub evaluate_audit_read : Act World AuthorizationDecision
    unfolding decide_on
    evaluate_audit_read = do
      decision ← decide_on (asking principal request "audit.read" "audit" (bytes "audit") [] [])
      pure (record (authorization decision) { decision_hash = "" })

    unfoldable pub evaluate_perf_read : Act World AuthorizationDecision
    unfolding decide_on
    evaluate_perf_read = do
      decision ← decide_on (asking principal request "perf.read" "perf" (bytes "perf") [] [])
      pure (record (authorization decision) { decision_hash = "" })

    unfoldable pub apply_film : Decision → FilmReadInput → Act World ApplyResult
    apply_film decision film w =
        Film.apply (decryptor e.kms) (dcs_enabled w.settings) decision
          (record { title = film.title; time_elapsed_ct = film.time_elapsed_ct }) w

    -- The masked title of the payload is dropped: the result has the time only.
    unfoldable pub enforce_film_read : FilmReadInput → Act World FilmReadResult
    unfolding evaluate apply_film
    enforce_film_read film = do
      decision ← evaluate "film.read" film.film_id
      result ← apply_film decision film
      pure (record {
        time_elapsed = value_or_nil (lookup "time_elapsed" result.payload);
        fields_decrypted = result.decrypted;
        fields_masked = result.masked;
        fields_denied = result.denied;
      })

    unfoldable pub enforce_film_create : FilmCreatePlain → Act World FilmCreateEncrypted
    unfolding decide_on
    enforce_film_create input = do
      decision ← decide_on (asking principal request "film.create" "film" [] [] [])
      if not decision.allow then raise forbidden else do
        time_elapsed_ct ← e.kms.encrypt (itoa input.time_elapsed)
        pure (stored_film input time_elapsed_ct)

    unfoldable pub evaluate_hall_create : Text → Act World AuthorizationDecision
    unfolding authorize_on
    evaluate_hall_create owner =
        authorize_on (asking principal request "hall.create" "hall" [] owner [])

    unfoldable pub evaluate_hall_read : Text → Text → Act World AuthorizationDecision
    unfolding authorize_on
    evaluate_hall_read hall_id owner =
        authorize_on (asking principal request "hall.read" "hall" hall_id owner [])

    unfoldable pub enforce_hall_read : HallReadInput → Act World HallReadResult
    unfolding decide_on shape_hall
    enforce_hall_read hall = do
      decision ←
          decide_on (asking principal request "hall.read" "hall" hall.hall_id hall.owner_user_id [])
      pure (shape_hall decision.field_actions hall)

    unfoldable pub evaluate_spectator_create : Text → Act World AuthorizationDecision
    unfolding authorize_on
    evaluate_spectator_create owner =
        authorize_on
          (asking principal request "spectator.create" "spectator" [] owner spectator_crypto)

    unfoldable pub evaluate_spectator_search : Act World AuthorizationDecision
    unfolding authorize_on
    evaluate_spectator_search = authorize_on (
        asking principal request "search.spectator" "spectator" (bytes "search") []
          spectator_crypto)

    abbrev pub spectator_row : SpectatorReadInput → Spectator.SpectatorRow
    spectator_row spectator = record {
      id = spectator.spectator_id;
      hall_id = spectator.hall_id;
      name_ct = spectator.name_ct;
      age_ct = spectator.age_ct;
      external_id_ct = spectator.external_id_ct;
    }

    unfoldable pub apply_spectator : Decision → SpectatorReadInput → Act World ApplyResult
    apply_spectator decision spectator w =
        Spectator.apply (decryptor e.kms) decision
          (e.visit w (Spectator.field_map (spectator_row spectator))) w

    unfoldable pub enforce_spectator_read : SpectatorReadInput → Act World SpectatorReadResult
    unfolding decide_on apply_spectator
    enforce_spectator_read spectator = do
      decision ← decide_on (
          asking principal request "spectator.read" "spectator" spectator.spectator_id []
            spectator_crypto)
      applied ← apply_spectator decision spectator
      pure (record {
        name = value_or_nil (lookup "name" applied.payload);
        age = value_or_nil (lookup "age" applied.payload);
        external_id = value_or_nil (lookup "external_id" applied.payload);
        fields_decrypted = applied.decrypted;
        fields_masked = applied.masked;
        fields_denied = applied.denied;
      })

    unfoldable pub encrypt_spectator : SpectatorCreatePlain → Act World SpectatorCreateEncrypted
    encrypt_spectator input = do
      name_ct ← e.kms.encrypt input.name
      age_ct ← e.kms.encrypt (itoa input.age)
      external_id_ct ← e.kms.encrypt input.external_id
      pepper ← e.kms.get_pepper e.pepper_path
      pure (record {
        hall_id = input.hall_id;
        name_ct = name_ct;
        age_ct = age_ct;
        external_id_ct = external_id_ct;
        external_id_lookup = e.hmac pepper (normalize_external_id input.external_id);
      })

    unfoldable pub enforce_spectator_create :
        SpectatorCreatePlain → Act World SpectatorCreateEncrypted
    unfolding decide_on encrypt_spectator
    enforce_spectator_create input = do
      decision ←
          decide_on (asking principal request "spectator.create" "spectator" [] [] spectator_crypto)
      if not decision.allow then raise forbidden else encrypt_spectator input
