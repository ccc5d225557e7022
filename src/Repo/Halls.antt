-- ===== src/Repo/Halls.antt =====
-- internal/repository/memory/hall_repo.go, with Hall of internal/domain/cinema.go (its labels and its
-- time of creation, which no operation reads, are left out) and HallRecord of
-- internal/service/hall_types.go.
pub mod Finding
pub mod Meets
use poc_dcs.Common.{
  String, Text, text_eq, string_eq, ◌==◌, ℤ, pos, Bool, ◌&&◌, List, [], ◌∷◌, ◌++◌, Option, none,
  some, Map, lookup, insert, if◌then◌else◌,
}

pub record Hall : Type 0 where
  pub tenant_id : String
  pub id : Text
  pub name : Text
  pub owner_user_id : Text
  pub current_film_id : Text

pub record HallRecord : Type 0 where
  pub tenant_id : String
  pub id : Text
  pub name : Text
  pub owner_user_id : Text
  pub current_film_id : Text

pub record HallRepository : Type 0 where
  pub halls : List Hall
  pub spectator_counts : Map Text ℤ

abbrev pub new_hall_repository : List Hall → HallRepository
new_hall_repository halls = record { halls = halls; spectator_counts = [] }

abbrev pub hall_record : Hall → HallRecord
hall_record hall = record {
  tenant_id = hall.tenant_id;
  id = hall.id;
  name = hall.name;
  owner_user_id = hall.owner_user_id;
  current_film_id = hall.current_film_id;
}

unfoldable pub records_of : String → List Hall → List HallRecord
records_of tenant [] = []
records_of tenant (hall ∷ halls) =
    let rest = records_of tenant halls in
    if hall.tenant_id == tenant then hall_record hall ∷ rest else rest

abbrev pub list_halls : String → HallRepository → List HallRecord
list_halls tenant r = records_of tenant r.halls

unfoldable pub create_hall : Hall → HallRepository → HallRepository
create_hall hall r = record {
  halls = r.halls ++ (hall ∷ []);
  spectator_counts = insert hall.id (pos 0) r.spectator_counts;
}

-- The tenant is not looked at.
unfoldable pub count_spectators : String → Text → HallRepository → ℤ
count_spectators tenant hall_id r = elim (lookup hall_id r.spectator_counts) [
  | none ↦ pos 0
  | some count ↦ count
]

abbrev pub set_spectator_count : Text → ℤ → HallRepository → HallRepository
set_spectator_count hall_id count r = record r {
  spectator_counts = insert hall_id count r.spectator_counts;
}

unfoldable pub first_hall : String → Text → List Hall → Option Hall
first_hall tenant hall_id [] = none
first_hall tenant hall_id (hall ∷ halls) =
    if hall.tenant_id == tenant && hall.id == hall_id
    then some hall
    else first_hall tenant hall_id halls

unfoldable pub find_by_id : String → Text → HallRepository → Option Hall
unfolding first_hall
find_by_id tenant hall_id r = first_hall tenant hall_id r.halls
