-- ===== src/Service/Halls/Held.antt =====
-- The hall service over any store of halls that meets the contract.
use poc_dcs.Common.{
  Text, ◌≡◌, refl, sym, ap, ◌∙◌, subst, suc, Option, some, List, [], ◌∷◌, ok, In, inl, inr,
}
use poc_dcs.Action.{Act, bind-ok_at, unless-ok}
use poc_dcs.Action.Ensures.{Ensures, pure-Ensures, bind-Ensures}
use poc_dcs.Types.{Principal, RequestContext, FieldAction}
use poc_dcs.Enforcer.{evaluate_hall_create, AuthorizationDecision}
use poc_dcs.Enforcer.Halls.{shown, enforce_hall_read-Shows}
use poc_dcs.Repo.Halls.{Hall, HallRecord, hall_record}
use poc_dcs.Service.System.{System, on_world, on_store}
use poc_dcs.Service.Halls.{
  HallService, HallOutput, HallCreateInput, list_halls, show_halls, read_hall, record_input,
  or_zero, hall_output, hall_perf, create_hall, create_allowed, create_refused, after_decision,
  new_hall,
}
use poc_dcs.Service.Halls.Contract.{Stored, IsHallStore}
use poc_dcs.Service.Halls.Succeeding.{shaped, shaped-store, shaped-id}

-- The answer for a record: the name in clear, and each identifier as it is or masked.
pub record IsOf (rec : HallRecord) (out : HallOutput) : Type 0 where
  pub id : out.id ≡ rec.id
  pub name : out.name ≡ some rec.name
  pub owner : (a : Option FieldAction) × (out.owner_user_id ≡ shown a rec.owner_user_id)
  pub film : (a : Option FieldAction) × (out.current_film_id ≡ shown a rec.current_film_id)

-- One answer for each record, in order.
abbrev pub Shown : List HallRecord → List HallOutput → Type 0
Shown [] [] = Unit
Shown [] (out ∷ outputs) = ⊥
Shown (rec ∷ records) [] = ⊥
Shown (rec ∷ records) (out ∷ outputs) = IsOf rec out × Shown records outputs

module _ {R : Type 0} (service : HallService R) (principal : Principal)
    (request : RequestContext) where
  read_hall-IsOf :
      (rec : HallRecord)
      → Ensures
          (λ result.
            (count : _) → IsOf rec (hall_output service principal request rec.id result count))
          (read_hall service principal request (record_input service principal request rec))
  read_hall-IsOf rec = record {
    ensured = λ s result h count.
        let (d, decided, (n, o, f)) =
          enforce_hall_read-Shows service.enforcer principal request
            (record_input service principal request rec) s.world result h in
        record { id = refl; name = n; owner = (_, o); film = (_, f) };
  }

  show_halls-Shown :
      (records : List HallRecord)
      → Ensures (Shown records) (show_halls service principal request records)
  unfolding show_halls
  show_halls-Shown [] = pure-Ensures [] tt
  show_halls-Shown (rec ∷ records) =
      bind-Ensures
        (read_hall service principal request (record_input service principal request rec))
        (λ result s read.
          bind-Ensures
            (on_store (or_zero (service.repo.count_spectators principal.tenant_id rec.id)))
            (λ count _ _.
              bind-Ensures (show_halls service principal request records) (λ rest s' got.
                pure-Ensures (hall_output service principal request rec.id result count ∷ rest) (
                  (read_hall-IsOf rec).ensured s result read count,
                  (show_halls-Shown records).ensured s' rest got,
                ))))

  module _ (Holds : R → Hall → Type 0) (Kept : Text → Text → Type 0)
      (contract : IsHallStore service.repo Holds Kept) where
    -- What was listed: one answer for each record that the store lists, and of which halls those are.
    pub record IsListed (s : System R) (outputs : List HallOutput) : Type 0 where
      pub records : List HallRecord
      pub listed : (service.repo.list_by_tenant principal.tenant_id s.store).0 ≡ ok records
      pub shows : Shown records outputs
      pub held :
          (rec : HallRecord)
          → In rec records
          → (hall : Hall) × Holds s.store hall
            × (hall.tenant_id ≡ principal.tenant_id)
            × (hall_record hall ≡ rec)
      pub all_held :
          (hall : Hall)
          → Holds s.store hall
          → hall.tenant_id ≡ principal.tenant_id
          → In (hall_record hall) records

    -- Over a store that meets the contract, a list of halls that is answered has one answer for each
    -- record that the store lists for the tenant, in that order, with its identifier and its name
    -- in clear and the identifiers of its owner and film as they are or masked; the records are of
    -- halls that the store holds for the tenant, and each of those is among them.
    pub list_halls-IsListed :
        (s : System R) (outputs : List HallOutput)
        → (list_halls service principal request s).0 ≡ ok outputs
        → IsListed s outputs
    unfolding list_halls
    list_halls-IsListed s outputs h =
        let (records, listed, h') =
          bind-ok_at (on_store (service.repo.list_by_tenant principal.tenant_id)) _ s h in
        let shows =
          (bind-Ensures (show_halls service principal request records) (λ outs s' got.
              bind-Ensures (hall_perf service principal request "hall.read") (λ measured _ _.
                pure-Ensures outs ((show_halls-Shown records).ensured s' outs got)))).ensured
            _ outputs h' in
        record {
          records = records;
          listed = listed;
          shows = shows;
          held = λ rec at. contract.list_sound principal.tenant_id s.store records rec listed at;
          all_held = λ hall held of.
              contract.list_complete principal.tenant_id s.store records hall listed held of;
        }

    create_allowed-Stored :
        (input : HallCreateInput) (s : System R) (out : HallOutput)
        → (create_allowed service principal request input s).0 ≡ ok out
        → (kept : Hall) × Stored Kept (new_hall service principal request out.id input) kept
          × Holds (create_allowed service principal request input s).1.store kept
    unfolding create_allowed
    create_allowed-Stored input s out h =
        let id : Text = service.new_uuid s.world.tick in
        let hall = new_hall service principal request id input in
        let s0 : System R = record s { world = record s.world { tick = suc s.world.tick } } in
        let s1 : System R = record s0 { store = (service.repo.create hall s.store).1 } in
        let (done, taken, made) =
          bind-ok_at (on_store (service.repo.create hall))
            (λ stored. shaped service principal request id input) s0 h in
        let named = (shaped-id service principal request id input).ensured s1 out made in
        let (kept, stored, held) = contract.create_holds hall s.store taken in
        (
          kept,
          subst (λ i. Stored Kept (new_hall service principal request i input) kept) (sym named)
              stored,
          subst (λ r. Holds r kept)
              (sym (rw taken ((shaped-store service principal request id input).left s1))) held,
        )

    -- Over a store that meets the contract, a creation of a hall that is answered leaves in the store
    -- a hall of the tenant, with the name, the owner and the film that were given and the
    -- identifier of the answer, each identifier as the store spells it.
    pub create_hall-Stored :
        (input : HallCreateInput) (s : System R) (out : HallOutput)
        → (create_hall service principal request input s).0 ≡ ok out
        → (kept : Hall) × Stored Kept (new_hall service principal request out.id input) kept
          × Holds (create_hall service principal request input s).1.store kept
    unfolding create_hall
    create_hall-Stored input s out h =
        let asked : Act (System R) AuthorizationDecision =
          on_world (evaluate_hall_create service.enforcer principal request input.owner_user_id) in
        let (a, decided, h') =
          bind-ok_at asked (after_decision service principal request input) s h in
        let (allowed, made) =
          unless-ok a.allow (create_refused service principal request)
            (create_allowed service principal request input) (asked s).1 (λ e. cc e) h' in
        let (kept, stored, held) = create_allowed-Stored input (asked s).1 out made in
        (kept, stored, rw (decided, allowed) held)

    shown-In :
        (records : List HallRecord) (outputs : List HallOutput) (rec : HallRecord)
        → Shown records outputs
        → In rec records
        → (out : HallOutput) × In out outputs × IsOf rec out
    shown-In [] outputs rec h at = elim at [ ]
    shown-In (first ∷ records) [] rec h at = elim h [ ]
    shown-In (first ∷ records) (out ∷ outputs) rec (here, rest) (inl e) =
        (out, inl refl, subst (λ r. IsOf r out) e here)
    shown-In (first ∷ records) (out ∷ outputs) rec (here, rest) (inr later) =
        let (out', at, is) = shown-In records outputs rec rest later in (out', inr at, is)

    -- Over a store that meets the contract, a list of halls that is answered after an answered
    -- creation by the same caller has an answer with the name that was given and with the
    -- identifier of the creation's answer, as the store spells it.
    pub created_then_listed :
        (input : HallCreateInput) (s : System R) (out : HallOutput) (outputs : List HallOutput)
        → (create_hall service principal request input s).0 ≡ ok out
        → (list_halls service principal request (create_hall service principal request input s).1).0
          ≡ ok outputs
        → (shows : HallOutput) × In shows outputs
          × Kept out.id shows.id
          × (shows.name ≡ some input.name)
    created_then_listed input s out outputs made listed =
        let (kept, stored, held) = create_hall-Stored input s out made in
        let list =
          list_halls-IsListed (create_hall service principal request input s).1 outputs listed in
        let (shows, at, is) =
          shown-In list.records outputs (hall_record kept) list.shows
            (list.all_held kept held stored.tenant) in
        (shows, at, subst (Kept out.id) (sym is.id) stored.id, is.name ∙ ap some stored.name)
