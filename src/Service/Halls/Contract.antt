-- ===== src/Service/Halls/Contract.antt =====
-- What the hall service may expect of its store of halls, whichever it is.
use poc_dcs.Common.{String, Text, ◌≡◌, ◌⊎◌, none, some, List, ok, In}
use poc_dcs.Repo.Halls.{Hall, HallRecord, hall_record}
use poc_dcs.Service.Halls.{HallRepository}

-- The hall that is kept for one that was given: a store may spell identifiers in its own way.
pub record Stored (Kept : Text → Text → Type 0) (given kept : Hall) : Type 0 where
  pub tenant : kept.tenant_id ≡ given.tenant_id
  pub id : Kept given.id kept.id
  pub name : kept.name ≡ given.name
  pub owner : Kept given.owner_user_id kept.owner_user_id
  pub film : Kept given.current_film_id kept.current_film_id

-- `Holds r h`: the store holds the hall. `Kept a b`: `b` is how the store spells `a`.
pub record IsHallStore {R : Type 0} (repo : HallRepository R) (Holds : R → Hall → Type 0)
    (Kept : Text → Text → Type 0) : Type 0 where
  pub create_holds :
      (hall : Hall) (r : R)
      → (repo.create hall r).0 ≡ ok tt
      → (kept : Hall) × Stored Kept hall kept × Holds (repo.create hall r).1 kept
  pub create_keeps :
      (hall other : Hall) (r : R) → Holds r other → Holds (repo.create hall r).1 other
  pub create_only :
      (hall other : Hall) (r : R)
      → Holds (repo.create hall r).1 other
      → Stored Kept hall other ⊎ Holds r other
  pub find_sound :
      (tenant : String) (id : Text) (r : R) (hall : Hall)
      → (repo.find_by_id tenant id r).0 ≡ ok (some hall)
      → Holds r hall × (hall.tenant_id ≡ tenant) × Kept id hall.id
  pub find_complete :
      (tenant : String) (id : Text) (r : R) (hall : Hall)
      → (repo.find_by_id tenant id r).0 ≡ ok none
      → Holds r hall
      → hall.tenant_id ≡ tenant
      → ¬ (Kept id hall.id)
  pub list_sound :
      (tenant : String) (r : R) (records : List HallRecord) (rec : HallRecord)
      → (repo.list_by_tenant tenant r).0 ≡ ok records
      → In rec records
      → (hall : Hall) × Holds r hall × (hall.tenant_id ≡ tenant) × (hall_record hall ≡ rec)
  pub list_complete :
      (tenant : String) (r : R) (records : List HallRecord) (hall : Hall)
      → (repo.list_by_tenant tenant r).0 ≡ ok records
      → Holds r hall
      → hall.tenant_id ≡ tenant
      → In (hall_record hall) records
