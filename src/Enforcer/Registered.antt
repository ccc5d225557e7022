-- ===== src/Enforcer/Registered.antt =====
-- What is encrypted, and digested for searches, when a spectator is created.
use poc_dcs.Common.{Text, ◌≡◌, refl, not, if◌then◌else◌, sym, ◌∙◌, [], ok}
use poc_dcs.Action.{raise, bind-ok_at, unless-ok}
use poc_dcs.Action.Ensures.{Ensures, pure-Ensures, bind-Ensures}
use poc_dcs.Common.{forbidden}
use poc_dcs.Strconv.{itoa}
use poc_dcs.Types.{Principal, RequestContext}
use poc_dcs.World.{World}
use poc_dcs.Kms.{normalize_external_id}
use poc_dcs.Pdp.Allows.{Permits, permits_of_allow}
use poc_dcs.Pip
use poc_dcs.Enforcer.{
  Parts, asking, decide_on, spectator_crypto, SpectatorCreatePlain, SpectatorCreateEncrypted,
  encrypt_spectator, enforce_spectator_create,
}
use poc_dcs.Enforcer.Authorize.{NoCollision, IsSound, decide_on-allow}

-- The hall is kept, and the digest is that of the normalised identifier under a pepper of the path
-- that the enforcer is configured with.
pub record IsRegistered (e : Parts) (input : SpectatorCreatePlain)
    (encrypted : SpectatorCreateEncrypted) : Type 0 where
  pub world : World
  pub pepper : Text
  pub peppered : (e.kms.get_pepper e.pepper_path world).0 ≡ ok pepper
  pub in_hall : encrypted.hall_id ≡ input.hall_id
  pub digested :
      encrypted.external_id_lookup ≡ e.hmac pepper (normalize_external_id input.external_id)

module _ (e : Parts) (principal : Principal) (request : RequestContext) where
  encrypt_spectator-IsRegistered :
      (input : SpectatorCreatePlain)
      → Ensures (IsRegistered e input) (encrypt_spectator e principal request input)
  unfolding encrypt_spectator
  encrypt_spectator-IsRegistered input = bind-Ensures (e.kms.encrypt input.name) (λ name_ct _ _.
      bind-Ensures (e.kms.encrypt (itoa input.age)) (λ age_ct _ _.
        bind-Ensures (e.kms.encrypt input.external_id) (λ external_id_ct _ _.
          bind-Ensures (e.kms.get_pepper e.pepper_path) (λ pepper w got. pure-Ensures _ (record {
            world = w;
            pepper = pepper;
            peppered = got;
            in_hall = refl;
            digested = refl;
          })))))

  abbrev pub create_request : Pip.Input
  create_request = asking principal request "spectator.create" "spectator" [] [] spectator_crypto

  pub enforce_spectator_create-ok :
      (input : SpectatorCreatePlain) (w : World) (c : SpectatorCreateEncrypted)
      → NoCollision e.digests
      → IsSound e w
      → (enforce_spectator_create e principal request input w).0 ≡ ok c
      → Permits e.pdp_config "spectator.create" principal.role × IsRegistered e input c
  unfolding enforce_spectator_create
  enforce_spectator_create-ok input w c no_collision sound h =
      let (d, decided, rest) =
        bind-ok_at (decide_on e create_request)
          (λ d.
            if not d.allow then raise forbidden else encrypt_spectator e principal request input)
          w h in
      let w1 : World = (decide_on e create_request w).1 in
      let (allowed, encrypted) =
        unless-ok d.allow (raise forbidden) (encrypt_spectator e principal request input) w1
          (λ failed. cc) rest in
      (
        permits_of_allow e.pdp_config "spectator.create" principal.role
            (sym (decide_on-allow e create_request w d no_collision sound decided) ∙ allowed),
        (encrypt_spectator-IsRegistered input).ensured w1 c encrypted,
      )
