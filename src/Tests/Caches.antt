-- ===== src/Tests/Caches.antt =====
-- The cache of internal/dcs/cache/ttl.go at two entries.
use poc_dcs.Common.{
  String, ℕ, pos, ◌≤◌, ◌≡◌, refl, List, [], ◌∷◌, some, none, string_eq, lookup, insert, delete,
}
use poc_dcs.Cache.Ttl.{Ttl, Entry, clear, new, get, set, ttl_or, second, evict, make_room, key_at}
use poc_dcs.Cache.Ttl.Invariant.{IsValid, new-IsValid, set-IsValid}
use poc_dcs.Cache.Ttl.History.{Call, read, write, wipe, run, apply, latest_from, hit_is_latest}

-- Three keys go into two entries, and the first is written again.
abbrev calls : List (Call String ℕ)
calls =
    write "a" 1 (pos 5) 10 0
    ∷ write "b" 2 (pos 0) 11 0
    ∷ wipe
    ∷ write "a" 3 (pos 9) 12 0
    ∷ read "a" 13
    ∷ write "b" 4 (pos 9) 14 1
    ∷ write "a" 5 (pos 9) 15 1
    ∷ []

run-calls : (get "a" 20 (run (new (pos 2) (pos 60)) calls)).0 ≡ some 5
unfolding get run apply set new make_room evict key_at lookup insert delete clear
run-calls = refl

hit_is_latest_example :
    (w : Entry ℕ) × (latest_from (ttl_or second (pos 60)) (λ j. none) calls "a" ≡ some w)
    × (w.value ≡ 5)
    × (20 ≤ w.expires_at)
hit_is_latest_example = hit_is_latest (pos 2) (pos 60) calls "a" 20 5 run-calls

abbrev one_entry : Ttl String ℕ
one_entry = set "a" 1 (pos 5) 10 0 (new (pos 1) (pos 60))

one_entry-IsValid : IsValid one_entry
one_entry-IsValid =
    set-IsValid "a" 1 (pos 5) 10 0 (new (pos 1) (pos 60)) (new-IsValid (pos 1) (pos 60))

set-IsValid_example : IsValid (set "b" 2 (pos 5) 11 0 one_entry)
set-IsValid_example = set-IsValid "b" 2 (pos 5) 11 0 one_entry one_entry-IsValid
