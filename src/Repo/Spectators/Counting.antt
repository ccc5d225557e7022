-- ===== src/Repo/Spectators/Counting.antt =====
-- What a creation changes for the searches and the counts.
use poc_dcs.Common.{
  String, Text, text_eq, string_eq, ◌==◌, ◌+◌, ◌≡◌, ◌&&◌, List, [], ◌∷◌, ◌++◌, arith, if◌then◌else◌,
}
use poc_dcs.Repo.Spectators.{Spectator, create_spectator, find_by_external_id_lookup, count_by_hall}

-- A creation adds the spectator to the end of what a search by its tenant and digest finds, and one to
-- the count of its tenant and hall; every other search and count is as before.
pub search-create_spectator :
    (tenant : String) (digest hall_id : Text) (s : Spectator) (spectators : List Spectator)
    → (find_by_external_id_lookup tenant digest (create_spectator s spectators)
        ≡ find_by_external_id_lookup tenant digest spectators
          ++ (if s.tenant_id == tenant && s.external_id_lookup == digest then s ∷ [] else []))
      × (count_by_hall tenant hall_id (create_spectator s spectators)
          ≡ count_by_hall tenant hall_id spectators
            + (if s.tenant_id == tenant && s.hall_id == hall_id then 1 else 0))
unfolding create_spectator find_by_external_id_lookup count_by_hall
search-create_spectator tenant digest hall_id s [] = ground arith
search-create_spectator tenant digest hall_id s (old ∷ spectators) =
    ground (arith, search-create_spectator tenant digest hall_id s spectators)
