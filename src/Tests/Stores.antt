-- ===== src/Tests/Stores.antt =====
-- The hall service over halls in memory, and what surrounds the handlers.
use poc_dcs.Common.{
  Text, bytes, pos, ◌≡◌, refl, some, [], ◌∷◌, ◌++◌, ok, In, string_eq, text_eq, lookup, insert,
  arith,
}
use poc_dcs.Config.{defaults}
use poc_dcs.Runtime
use poc_dcs.Enforcer
use poc_dcs.Pdp
use poc_dcs.Pip
use poc_dcs.World
use poc_dcs.Kms.{local_client}
use poc_dcs.Repo.Halls
use poc_dcs.Repo.Halls.Meets as Meets
use poc_dcs.Repo.Halls.Meets.{memory_halls-IsHallStore}
use poc_dcs.Service.System.{System}
use poc_dcs.Service.Halls as HallsOf
use poc_dcs.Service.Halls.{memory_halls, HallOutput}
use poc_dcs.Service.Halls.Held.{IsListed, list_halls-IsListed, created_then_listed}
use poc_dcs.Tests.Fixtures.{parts, someone, request, logs}
use poc_dcs.Tests.Web.{uncached}
use poc_dcs.Server.{mask_db_url}
use poc_dcs.Server.Masking.{mask_db_url_reveals}

abbrev halls : HallsOf.HallService Halls.HallRepository
halls = record { repo = memory_halls; enforcer = parts; logs = logs; new_uuid = λ n. n ∷ [] }

abbrev empty : System Halls.HallRepository
empty = record {
  world = uncached.world;
  store = Halls.new_hall_repository [];
  trail = [];
  measures = [];
}

abbrev input : HallsOf.HallCreateInput
input = record { name = bytes "Two"; owner_user_id = bytes "u-9"; current_film_id = bytes "f-1" }

abbrev answered : HallOutput
answered = record {
  id = 0 ∷ [];
  name = some (bytes "Two");
  owner_user_id = bytes "u-9";
  current_film_id = bytes "f-1";
  spectator_count = pos 0;
}

made : (HallsOf.create_hall halls (someone "admin") request input empty).0 ≡ ok answered
unfolding HallsOf.create_hall Enforcer.evaluate_hall_create Pip.build Runtime.dcs_enabled
    Pdp.evaluate World.level_enabled Pdp.compute defaults local_client Enforcer.enforce_hall_read
    Halls.create_hall lookup insert
made = refl

listed :
    (HallsOf.list_halls halls
      (someone "admin")
      request
      (HallsOf.create_hall halls (someone "admin") request input empty).1).0
    ≡ ok (answered ∷ [])
unfolding HallsOf.list_halls HallsOf.show_halls Halls.records_of HallsOf.create_hall
    Enforcer.evaluate_hall_create Pip.build Runtime.dcs_enabled Pdp.evaluate World.level_enabled
    Pdp.compute defaults local_client Enforcer.enforce_hall_read Halls.create_hall lookup insert
    Halls.count_spectators
listed = refl

list_halls-IsListed_example :
    IsListed halls
      (someone "admin")
      request
      Meets.Holds
      Meets.Kept
      memory_halls-IsHallStore
      (HallsOf.create_hall halls (someone "admin") request input empty).1
      (answered ∷ [])
list_halls-IsListed_example =
    list_halls-IsListed halls (someone "admin") request Meets.Holds Meets.Kept
      memory_halls-IsHallStore (HallsOf.create_hall halls (someone "admin") request input empty).1
      (answered ∷ []) listed

created_then_listed_example :
    (shows : HallOutput) × In shows (answered ∷ [])
    × (answered.id ≡ shows.id)
    × (shows.name ≡ some (bytes "Two"))
created_then_listed_example =
    created_then_listed halls (someone "admin") request Meets.Holds Meets.Kept
      memory_halls-IsHallStore input empty answered (answered ∷ []) made listed

mask_db_url_reveals_example :
    (end : Text) × (mask_db_url (bytes "postgres://u:" ++ (bytes "pw" ++ bytes "@host/cinema"))
      ≡ some ((bytes "postgres://u:" ++ bytes "pw") ++ end))
mask_db_url_reveals_example =
    mask_db_url_reveals (bytes "postgres://u:") (bytes "pw") (bytes "@host/cinema") (omega arith)
      (omega arith)
