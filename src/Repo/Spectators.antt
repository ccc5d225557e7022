-- ===== src/Repo/Spectators.antt =====
-- internal/repository/memory/spectator_repo.go, with Spectator of internal/domain/cinema.go (without
-- its labels and its time of creation). The records behind the pointers are never changed.
pub mod Counting
use poc_dcs.Common.{
  String, Text, text_eq, string_eq, ◌==◌, ℕ, zero, suc, Bool, ◌&&◌, List, [], ◌∷◌, ◌++◌,
  if◌then◌else◌,
}

pub record Spectator : Type 0 where
  pub tenant_id : String
  pub id : Text
  pub hall_id : Text
  pub name_ct : Text
  pub age_ct : Text
  pub external_id_ct : Text
  pub external_id_lookup : Text

unfoldable pub create_spectator : Spectator → List Spectator → List Spectator
create_spectator spectator spectators = spectators ++ (spectator ∷ [])

unfoldable pub find_by_external_id_lookup : String → Text → List Spectator → List Spectator
find_by_external_id_lookup tenant digest [] = []
find_by_external_id_lookup tenant digest (s ∷ spectators) =
    let rest = find_by_external_id_lookup tenant digest spectators in
    if s.tenant_id == tenant && s.external_id_lookup == digest then s ∷ rest else rest

unfoldable pub count_by_hall : String → Text → List Spectator → ℕ
count_by_hall tenant hall_id [] = 0
count_by_hall tenant hall_id (s ∷ spectators) =
    let count = count_by_hall tenant hall_id spectators in
    if s.tenant_id == tenant && s.hall_id == hall_id then suc count else count
