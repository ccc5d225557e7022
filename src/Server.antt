-- ===== src/Server.antt =====
-- internal/server/server.go: the database of a process and the line that is logged about it. The
-- listeners and the order in which they stop are not modelled.
pub mod Masking
use poc_dcs.Common.{
  String, Text, bytes, ℕ, zero, suc, Option, none, some, List, [], ◌∷◌, ◌++◌, string_eq, ◌==◌, not,
  if◌then◌else◌, text_eq,
}

-- `s[:n]`, a panic where the text is shorter.
unfoldable pub first_bytes : ℕ → Text → Option Text
first_bytes zero s = some []
first_bytes (suc n) [] = none
first_bytes (suc n) (b ∷ s) = elim (first_bytes n s) [ none ↦ none | some t ↦ some (b ∷ t) ]

abbrev pub masked : Option Text → Option Text
masked none = none
masked (some start) = some (start ++ bytes "*** (password masked)")

-- `none` is a panic.
unfoldable pub mask_db_url : Text → Option Text
unfolding first_bytes
mask_db_url url = masked (first_bytes 20 url)

-- How New gets its database: `connect` is NewPool, an error being `none`. The outer `none` is the
-- panic of the log line.
abbrev pub connected : {P : Type 0} → (Text → Option P) → Text → Option Text → Option (Option P)
connected connect url none = none
connected connect url (some line) = some (connect url)

unfoldable pub setup_database : {P : Type 0} → (Text → Option P) → Text → Option (Option P)
unfolding mask_db_url
setup_database connect url =
    if not (url == []) then connected connect url (mask_db_url url) else some none
