-- ===== src/Repo/Halls/Finding.antt =====
-- Looking up a hall after one was created.
use poc_dcs.Common.{
  String, Text, text_eq, string_eq, ◌==◌, ◌≡◌, refl, ◌&&◌, List, [], ◌∷◌, ◌++◌, Option, none, some,
  arith, if◌then◌else◌,
}
use poc_dcs.Repo.Halls.{Hall, HallRepository, first_hall, find_by_id, create_hall}

-- The hall that is found once another is created: an older one first.
abbrev pub or_created : Option Hall → Option Hall → Option Hall
or_created none created = created
or_created (some hall) created = some hall

first_hall-append :
    (tenant : String) (hall_id : Text) (halls : List Hall) (hall : Hall)
    → first_hall tenant hall_id (halls ++ (hall ∷ []))
      ≡ or_created (first_hall tenant hall_id halls) (first_hall tenant hall_id (hall ∷ []))
unfolding first_hall
first_hall-append tenant hall_id [] hall = refl
first_hall-append tenant hall_id (old ∷ halls) hall =
    ground (arith, first_hall-append tenant hall_id halls hall)

-- After a creation a hall is found as before, if there was one of that tenant and identifier, and
-- else the created hall is found exactly under its own tenant and identifier.
pub find_by_id-create_hall :
    (tenant : String) (hall_id : Text) (hall : Hall) (r : HallRepository)
    → find_by_id tenant hall_id (create_hall hall r)
      ≡ or_created
          (find_by_id tenant hall_id r)
          (if hall.tenant_id == tenant && hall.id == hall_id then some hall else none)
unfolding find_by_id create_hall first_hall
find_by_id-create_hall tenant hall_id hall r = first_hall-append tenant hall_id r.halls hall
