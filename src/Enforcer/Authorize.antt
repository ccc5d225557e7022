-- ===== src/Enforcer/Authorize.antt =====
-- Whom the enforcer lets through, whatever the caches hold.
use poc_dcs.Common.{[]}
use mathlib.Core.Path.{ap₂}
use poc_dcs.Action.{bind-ok_at, bind-keeps}
use poc_dcs.Common.{
  String, Bool, true, false, not, ◌≡◌, refl, sym, ap, ◌∙◌, ok, err, forbidden, inl, inr, Bool-cases,
  string_eq, if◌then◌else◌,
}
use poc_dcs.Action.{Act, pure, raise}
use poc_dcs.Types.{Principal, RequestContext, PolicyInput, Decision}
use poc_dcs.World.{World}
use poc_dcs.Strconv.{itoa}
use poc_dcs.Pdp
use poc_dcs.Pdp.{Digests, KeyPayload, allow_without_dcs}
use poc_dcs.Pdp.Allows.{Permits, permits_of_allow}
use poc_dcs.Pdp.Cached.{CacheIsSound, evaluate-allow, evaluate-CacheIsSound}
use poc_dcs.Pip
use poc_dcs.Pip.Tenants.{IsFor, build-IsFor, build-LeavesDecisions}
use poc_dcs.Enforcer.{
  authorize_on, authorization, AuthorizationDecision, Parts, pdp_decision, stored_film, decide_on,
  asking, FilmCreatePlain, FilmCreateEncrypted, enforce_film_create,
}

-- SHA-256 of the JSON key, as the cache relies on it: different keys, different digests.
abbrev pub NoCollision : Digests → Type 0
NoCollision digests = (p q : KeyPayload) → digests.of_key p ≡ digests.of_key q → p ≡ q

abbrev pub IsSound : Parts → World → Type 0
IsSound e w = CacheIsSound e.oracle e.digests e.pdp_config w

guarded-ok :
    {A : Type 0} (allowed : Bool) (k : Act World A) (w : World) {a : A}
    → ((if not allowed then raise forbidden else k) w).0 ≡ ok a
    → (allowed ≡ true) × ((k w).0 ≡ ok a)
guarded-ok true k w h = (refl, h)
guarded-ok false k w h = cc

guarded-forbidden :
    {A : Type 0} (allowed : Bool) (k : Act World A) (w : World)
    → allowed ≡ false
    → (if not allowed then raise forbidden else k) w ≡ (err forbidden, w)
guarded-forbidden true k w h = cc
guarded-forbidden false k w h = refl

module _ (e : Parts) where
  IsSound-build :
      (input : Pip.Input) (w : World)
      → IsSound e w
      → IsSound e (Pip.build e.oracle e.store e.pip_config input w).1
  IsSound-build input w h =
      let leaves = build-LeavesDecisions e.oracle e.store e.pip_config input w in
      record { computed = λ key item found. h.computed key item (rw leaves.pdp at found) }

  build-own :
      (input : Pip.Input) (w : World) (built : PolicyInput)
      → (Pip.build e.oracle e.store e.pip_config input w).0 ≡ ok built
      → IsFor e.oracle e.store input w built
  build-own input w built made = build-IsFor e.oracle e.store e.pip_config input w built made

  -- Whatever the caches hold, a decision of the enforcer is the one of the configuration's rules, and
  -- the cache stays sound.
  pub decide_on-allow :
      (input : Pip.Input) (w : World) (d : Decision)
      → NoCollision e.digests
      → IsSound e w
      → (decide_on e input w).0 ≡ ok d
      → d.allow ≡ allow_without_dcs e.pdp_config input.action input.principal.role
  unfolding decide_on
  decide_on-allow input w d no_collision h decided =
      let m = Pip.build e.oracle e.store e.pip_config input in
      let (built, made, evaluated) = bind-ok_at m (pdp_decision e) w decided in
      let made_for = build-own input w built made in
      let same : (Pdp.evaluate e.oracle e.digests e.pdp_config built (m w).1).0.0 ≡ d =
        cc evaluated in
      ap (λ x. x.allow) (sym same)
      ∙ evaluate-allow e.oracle e.digests e.pdp_config built (m w).1 no_collision made_for.own
          (IsSound-build input w h)
      ∙ ap₂ (allow_without_dcs e.pdp_config) made_for.action (ap (λ p. p.role) made_for.principal)

  -- Deciding keeps the cache of decisions sound.
  pub decide_on-IsSound :
      (input : Pip.Input) (w : World) → IsSound e w → IsSound e (decide_on e input w).1
  unfolding decide_on pdp_decision
  decide_on-IsSound input w h =
      bind-keeps (IsSound e) (Pip.build e.oracle e.store e.pip_config input) (pdp_decision e) w
        (IsSound-build input w h)
        (λ built made.
          evaluate-CacheIsSound e.oracle e.digests e.pdp_config built _
            (build-own input w built made).own (IsSound-build input w h))

  pub not-allowed :
      (action role : String)
      → ¬ Permits e.pdp_config action role
      → allow_without_dcs e.pdp_config action role ≡ false
  not-allowed action role h = elim (Bool-cases (allow_without_dcs e.pdp_config action role)) [
    | inl allowed ↦ absurd (h (permits_of_allow e.pdp_config action role allowed))
    | inr refused ↦ refused
  ]

  -- The same of an authorization, which passes the verdict on.
  pub authorize_on-allow :
      (input : Pip.Input) (w : World) (a : AuthorizationDecision)
      → NoCollision e.digests
      → IsSound e w
      → (authorize_on e input w).0 ≡ ok a
      → a.allow ≡ allow_without_dcs e.pdp_config input.action input.principal.role
  unfolding authorize_on
  authorize_on-allow input w a no_collision h authorized =
      let (d, decided, made) =
        bind-ok_at (decide_on e input) (λ d. pure (authorization d)) w authorized in
      let same : authorization d ≡ a = cc made in
      ap (λ x. x.allow) (sym same) ∙ decide_on-allow input w d no_collision h decided

  pub authorize_on-Permits :
      (input : Pip.Input) (w : World) (a : AuthorizationDecision)
      → NoCollision e.digests
      → IsSound e w
      → (authorize_on e input w).0 ≡ ok a
      → a.allow ≡ true
      → Permits e.pdp_config input.action input.principal.role
  authorize_on-Permits input w a no_collision h authorized allowed =
      permits_of_allow e.pdp_config input.action input.principal.role
        (sym (authorize_on-allow input w a no_collision h authorized) ∙ allowed)

  -- A film is encrypted for storage only if the configuration permits `film.create` to the role; its
  -- title is stored as given.
  pub enforce_film_create_permitted :
      (principal : Principal) (request : RequestContext) (input : FilmCreatePlain) (w : World)
      (c : FilmCreateEncrypted)
      → NoCollision e.digests
      → IsSound e w
      → (enforce_film_create e principal request input w).0 ≡ ok c
      → Permits e.pdp_config "film.create" principal.role × (c.title ≡ input.title)
  unfolding enforce_film_create
  enforce_film_create_permitted principal request input w c no_collision h done =
      let asked = asking principal request "film.create" "film" [] [] [] in
      let (d, decided, rest) = bind-ok_at (decide_on e asked) _ w done in
      let (allowed, encrypted) = guarded-ok d.allow _ (decide_on e asked w).1 rest in
      let (ct, answered, made) =
        bind-ok_at (e.kms.encrypt (itoa input.time_elapsed)) (λ t. pure (stored_film input t))
          (decide_on e asked w).1 encrypted in
      (
        permits_of_allow e.pdp_config "film.create" principal.role
            (sym (decide_on-allow asked w d no_collision h decided) ∙ allowed),
        cc made,
      )

  -- Where the configuration does not permit `film.create` to the role, a creation that reaches a
  -- decision is refused, and the world is the one the decision leaves: nothing is encrypted.
  pub enforce_film_create_forbidden :
      (principal : Principal) (request : RequestContext) (film : FilmCreatePlain) (w : World)
      (d : Decision)
      → NoCollision e.digests
      → IsSound e w
      → (decide_on e (asking principal request "film.create" "film" [] [] []) w).0 ≡ ok d
      → ¬ Permits e.pdp_config "film.create" principal.role
      → enforce_film_create e principal request film w ≡ (
        err forbidden,
        (decide_on e (asking principal request "film.create" "film" [] [] []) w).1,
      )
  unfolding enforce_film_create
  enforce_film_create_forbidden principal request film w d no_collision h decided not_permitted =
      let asked = asking principal request "film.create" "film" [] [] [] in
      rw decided (
        guarded-forbidden d.allow _ (decide_on e asked w).1 (
          decide_on-allow asked w d no_collision h decided
          ∙ not-allowed "film.create" principal.role not_permitted))
