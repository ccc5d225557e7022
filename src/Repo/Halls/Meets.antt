-- ===== src/Repo/Halls/Meets.antt =====
-- The repository of halls in memory is a store of halls, which keeps them as they are given.
use poc_dcs.Common.{
  String, string_eq, Text, text_eq, ◌==◌, ◌≡◌, refl, sym, ap, Bool, ◌≢◌, ◌∙◌, inl, inr, arith, none,
  some, List, [], ◌∷◌, In, In-append, In-append_left, In-append_right, true, false, if◌then◌else◌,
}
use poc_dcs.Repo.Halls.{
  Hall, HallRecord, HallRepository, hall_record, records_of, create_hall, first_hall, find_by_id,
}
use poc_dcs.Service.Halls.{memory_halls}
use poc_dcs.Service.Halls.Contract.{Stored, IsHallStore}

abbrev pub Holds : HallRepository → Hall → Type 0
Holds r hall = In hall r.halls

-- Identifiers are kept as they are given.
abbrev pub Kept : Text → Text → Type 0
Kept given kept = given ≡ kept

same-Stored : (given kept : Hall) → given ≡ kept → Stored Kept given kept
same-Stored given kept e = record {
  tenant = ap (λ (h : Hall). h.tenant_id) (sym e);
  id = ap (λ (h : Hall). h.id) e;
  name = ap (λ (h : Hall). h.name) (sym e);
  owner = ap (λ (h : Hall). h.owner_user_id) e;
  film = ap (λ (h : Hall). h.current_film_id) e;
}

first_hall-In :
    (tenant : String) (id : Text) (halls : List Hall) (hall : Hall)
    → first_hall tenant id halls ≡ some hall
    → In hall halls × (hall.tenant_id ≡ tenant) × (id ≡ hall.id)
unfolding first_hall
first_hall-In tenant id [] hall found = cc
first_hall-In tenant id (h ∷ halls) hall found = grind (
  arith,
  string_eq.beq_iff h.tenant_id tenant,
  text_eq.beq_iff h.id id,
  first_hall-In tenant id halls hall,
  inl,
  inr,
)

-- Where none is found, none of that tenant and identifier is there.
first_hall-none :
    (tenant : String) (id : Text) (halls : List Hall) (hall : Hall)
    → first_hall tenant id halls ≡ none
    → In hall halls
    → hall.tenant_id ≡ tenant
    → id ≢ hall.id
unfolding first_hall
first_hall-none tenant id [] hall missing h t e = elim h [ ]
first_hall-none tenant id (g ∷ halls) hall missing (inl same) t e = ground (
  arith,
  string_eq.beq_iff g.tenant_id tenant,
  text_eq.beq_iff g.id id,
  ap (λ (x : Hall). x.tenant_id) same,
  ap (λ (x : Hall). x.id) same,
)
first_hall-none tenant id (g ∷ halls) hall missing (inr rest) t e =
    ground (arith, first_hall-none tenant id halls hall)

-- The hall behind a listed record.
abbrev Behind : String → List Hall → HallRecord → Type 0
Behind tenant halls rec =
    (hall : Hall) × In hall halls × (hall.tenant_id ≡ tenant) × (hall_record hall ≡ rec)

Behind-cons :
    (tenant : String) (g : Hall) (halls : List Hall) (rec : HallRecord)
    → Behind tenant halls rec
    → Behind tenant (g ∷ halls) rec
Behind-cons tenant g halls rec (hall, at, of, same) = (hall, inr at, of, same)

records_of_sound :
    (tenant : String) (halls : List Hall) (rec : HallRecord)
    → In rec (records_of tenant halls)
    → Behind tenant halls rec
unfolding records_of
records_of_sound tenant [] rec h = elim h [ ]
records_of_sound tenant (g ∷ halls) rec h =
    go (g.tenant_id == tenant) refl (records_of_sound tenant halls rec) h
  where
    go :
        (b : Bool)
        → (g.tenant_id == tenant) ≡ b
        → (In rec (records_of tenant halls) → Behind tenant halls rec)
        → In rec (if b then hall_record g ∷ records_of tenant halls else records_of tenant halls)
        → Behind tenant (g ∷ halls) rec
    go true e ih (inl same) = (g, inl refl, (string_eq.beq_iff g.tenant_id tenant).0 e, same)
    go true e ih (inr rest) = Behind-cons tenant g halls rec (ih rest)
    go false e ih rest = Behind-cons tenant g halls rec (ih rest)

In-under :
    (tenant : String) (g : Hall) (halls : List Hall) (rec : HallRecord)
    → In rec (records_of tenant halls)
    → In rec (records_of tenant (g ∷ halls))
unfolding records_of
In-under tenant g halls rec h = go (g.tenant_id == tenant)
  where
    go :
        (b : Bool)
        → In rec (if b then hall_record g ∷ records_of tenant halls else records_of tenant halls)
    go true = inr h
    go false = h

records_of_complete :
    (tenant : String) (halls : List Hall) (hall : Hall)
    → In hall halls
    → hall.tenant_id ≡ tenant
    → In (hall_record hall) (records_of tenant halls)
unfolding records_of
records_of_complete tenant [] hall h t = elim h [ ]
records_of_complete tenant (g ∷ halls) hall (inl same) t =
    rw ((string_eq.beq_iff g.tenant_id tenant).1 (ap (λ (x : Hall). x.tenant_id) same ∙ t))
      (inl (ap hall_record same))
records_of_complete tenant (g ∷ halls) hall (inr rest) t =
    In-under tenant g halls (hall_record hall) (records_of_complete tenant halls hall rest t)

-- The repository in memory meets the contract of a store of halls: it holds the halls that it was
-- given, as they were given; what it finds by a tenant and an identifier is such a hall that it
-- holds, and where it finds none it holds none; and it lists those of a tenant.
pub memory_halls-IsHallStore : IsHallStore memory_halls Holds Kept
unfolding create_hall find_by_id
memory_halls-IsHallStore = record {
  create_holds = λ hall r done.
      (hall, same-Stored hall hall refl, In-append_right hall r.halls (hall ∷ []) (inl refl));
  create_keeps = λ hall other r h. In-append_left other r.halls (hall ∷ []) h;
  create_only = λ hall other r h. elim (In-append other r.halls (hall ∷ []) h) [
    | inl old ↦ inr old
    | inr new ↦ elim new [ inl e ↦ inl (same-Stored hall other e) | inr h' ↦ elim h' [ ] ]
  ];
  find_sound = λ tenant id r hall found.
      let e : first_hall tenant id r.halls ≡ some hall = cc found in
      first_hall-In tenant id r.halls hall e;
  find_complete = λ tenant id r hall missing held of.
      let e : first_hall tenant id r.halls ≡ none = cc missing in
      first_hall-none tenant id r.halls hall e held of;
  list_sound = λ tenant r records rec listed at.
      let e : records_of tenant r.halls ≡ records = cc listed in
      records_of_sound tenant r.halls rec (rw e at);
  list_complete = λ tenant r records hall listed held of.
      let e : records_of tenant r.halls ≡ records = cc listed in
      rw (← e) (records_of_complete tenant r.halls hall held of);
}
