-- ===== src/Service/Spectators/Searching.antt =====
-- What a search by the external identifier finds, and for whom.
use poc_dcs.Common.{
  bytes, Text, ◌≢◌, ◌⊎◌, ◌≡◌, refl, sym, ap, ◌∙◌, Bool-cases, inl, inr, true, false, List, [], ◌∷◌,
  map, ok, string_eq, ◌==◌, subst,
}
use poc_dcs.Action.{Act, pure, bind-ok_at, unless-ok, ◌>>=◌}
use poc_dcs.Types.{Principal, RequestContext}
use poc_dcs.Runtime.{dcs_enabled}
use poc_dcs.World.{World}
use poc_dcs.Kms.{normalize_external_id}
use poc_dcs.Pep.Payload.{Value, text}
use poc_dcs.Pdp.Allows.{Permits}
use poc_dcs.Pip
use poc_dcs.Enforcer.{
  asking, spectator_crypto, evaluate_spectator_search, authorize_on, SpectatorReadResult,
}
use poc_dcs.Enforcer.Authorize.{NoCollision, IsSound, authorize_on-Permits}
use poc_dcs.Repo.Spectators.{Spectator}
use poc_dcs.Service.System.{System, on_world, on_store}
use poc_dcs.Service.Spectators.{
  SpectatorService, SpectatorOutput, search, search_allowed, search_refused, show_spectators,
  show_spectator, read_spectator, output, search_by, answer_found, answer_shown,
  default_pepper_path, shown_id, after_decision,
}

module _ {R : Type 0} (service : SpectatorService R) (principal : Principal)
    (request : RequestContext) where
  -- What every answer has in common with its spectator, the list has in common with the spectators.
  show_spectators_each :
      {X : Type 0} (seen : SpectatorOutput → X) (stored : Spectator → X)
      → ((spectator : Spectator) (result : SpectatorReadResult) (w : World)
          → seen (output service principal request spectator result w) ≡ stored spectator)
      → (spectators : List Spectator) (s : System R) (out : List SpectatorOutput)
      → (show_spectators service principal request spectators s).0 ≡ ok out
      → map seen out ≡ map stored spectators
  unfolding show_spectators
  show_spectators_each seen stored same [] s out h = cc
  show_spectators_each seen stored same (spectator ∷ spectators) s out h =
      let read = read_spectator service principal request spectator in
      let (result, _, rest) =
        bind-ok_at read
          (λ result. show_spectator service principal request spectator result >>= λ shown.
            (show_spectators service principal request spectators >>= λ t. pure (shown ∷ t)))
          s h in
      let (shown, at, rest') =
        bind-ok_at (show_spectator service principal request spectator result)
          (λ shown. show_spectators service principal request spectators >>= λ t. pure (shown ∷ t))
          (read s).1 rest in
      let (tail, listed, made) =
        bind-ok_at (show_spectators service principal request spectators) (λ t. pure (shown ∷ t))
          (read s).1 rest' in
      let all : shown ∷ tail ≡ out = cc made in
      let one : output service principal request spectator result (read s).1.world ≡ shown =
        cc at in
      ap (map seen) (sym all)
      ∙ ap (λ x. x ∷ map seen tail) (ap seen (sym one) ∙ same spectator result (read s).1.world)
      ∙ ap (λ t. stored spectator ∷ t)
          (show_spectators_each seen stored same spectators (read s).1 tail listed)

  abbrev pub hall_of : Spectator → Text
  hall_of spectator = spectator.hall_id

  abbrev pub shown_hall : SpectatorOutput → Text
  shown_hall out = out.hall_id

  abbrev pub whole_id : Spectator → Value
  whole_id spectator = text spectator.id

  abbrev pub id_of : SpectatorOutput → Value
  id_of out = out.id

  shown_id_admin :
      (id : Text) (w : World)
      → (principal.role == "admin") ≡ true
      → shown_id service principal request id w ≡ text id
  unfolding shown_id
  shown_id_admin id w h = elim (Bool-cases (dcs_enabled w.settings)) [
    | inl on ↦ rw (on, h) refl
    | inr off ↦ rw off refl
  ]

  -- The answers are the spectators of the tenant that the store has for the digest of the normalised
  -- identifier under a pepper of the constant path, in the order of the store, each with its hall,
  -- and for an administrator with its whole identifier.
  pub record IsFound (external_id : Text) (store : R) (out : List SpectatorOutput) : Type 0 where
    pub world : World
    pub pepper : Text
    pub spectators : List Spectator
    pub peppered : (service.enforcer.kms.get_pepper default_pepper_path world).0 ≡ ok pepper
    pub stored :
        (service.repo.find_by_external_id_lookup principal.tenant_id
          (service.enforcer.hmac pepper (normalize_external_id external_id))
          store).0
        ≡ ok spectators
    pub in_halls : map shown_hall out ≡ map hall_of spectators
    pub whole_for_admin :
        ((principal.role == "admin") ≡ false) ⊎ (map id_of out ≡ map whole_id spectators)

  search_allowed-IsFound :
      (external_id : Text) (s : System R) (out : List SpectatorOutput)
      → (search_allowed service principal request external_id s).0 ≡ ok out
      → IsFound external_id s.store out
  search_allowed-IsFound external_id s out h =
      let peppered : Act (System R) Text =
        on_world (service.enforcer.kms.get_pepper default_pepper_path) in
      let digest : Text → Text =
        λ pepper. service.enforcer.hmac pepper (normalize_external_id external_id) in
      let (pepper, got, rest) =
        bind-ok_at peppered (λ pepper. search_by service principal request (digest pepper)) s h in
      let found : Act (System R) (List Spectator) =
        on_store (service.repo.find_by_external_id_lookup principal.tenant_id (digest pepper)) in
      let s1 : System R = (peppered s).1 in
      let (spectators, stored, rest') =
        bind-ok_at found (answer_found service principal request) s1 rest in
      let s2 : System R = (found s1).1 in
      let (out', shown, rest'') =
        bind-ok_at (show_spectators service principal request spectators)
          (answer_shown service principal request) s2 rest' in
      let same : out' ≡ out = cc rest'' in
      let answered =
        subst (λ o. (show_spectators service principal request spectators s2).0 ≡ ok o) same
          shown in
      record {
        world = s.world;
        pepper = pepper;
        spectators = spectators;
        peppered = got;
        stored = stored;
        in_halls =
            show_spectators_each shown_hall hall_of (λ spectator result w. refl) spectators s2 out
              answered;
        whole_for_admin = elim (Bool-cases (principal.role == "admin")) [
          | inl is_admin ↦ inr (
              show_spectators_each id_of whole_id
                (λ spectator result w. shown_id_admin spectator.id w is_admin) spectators s2 out
                answered)
          | inr other' ↦ inl other'
        ];
      }

  refused-ok :
      (s : System R) (out : List SpectatorOutput)
      → (search_refused service principal request s).0 ≢ ok out
  refused-ok s out h = cc

  abbrev pub search_request : Pip.Input
  search_request =
      asking principal request "search.spectator" "spectator" (bytes "search") [] spectator_crypto

  -- A search that is answered was permitted to the role by the configuration, and its answers are
  -- the spectators of the tenant that the store has for the digest of the normalised identifier under
  -- a pepper of the constant path, in the order of the store, each with its hall, and for an
  -- administrator with its whole identifier.
  pub search-IsFound :
      (external_id : Text) (s : System R) (out : List SpectatorOutput)
      → NoCollision service.enforcer.digests
      → IsSound service.enforcer s.world
      → (search service principal request external_id s).0 ≡ ok out
      → Permits service.enforcer.pdp_config "search.spectator" principal.role
        × IsFound external_id s.store out
  unfolding search evaluate_spectator_search
  search-IsFound external_id s out no_collision sound h =
      let asked = search_request in
      let (a, decided, rest) =
        bind-ok_at (on_world (authorize_on service.enforcer asked))
          (after_decision service principal request external_id) s h in
      let s1 : System R = (on_world (authorize_on service.enforcer asked) s).1 in
      let (allowed, answered) =
        unless-ok a.allow (search_refused service principal request)
          (search_allowed service principal request external_id) s1 (refused-ok s1 out) rest in
      (
        authorize_on-Permits service.enforcer asked s.world a no_collision sound decided allowed,
        search_allowed-IsFound external_id s1 out answered,
      )
