-- ===== src/Pep/Mask.antt =====
-- internal/dcs/pep/mask.go and uuid_mask.go: what a masked value still shows.
pub mod Hiding
use poc_dcs.Common.{
  String, Text, bytes, ℕ, zero, suc, Bool, true, false, not, ◌&&◌, ◌≡◌, refl, List, [], ◌∷◌, ◌++◌,
  Option, none, some, ℤ, pos, length, leb, ltb_ℤ, string_eq, ◌==◌, if◌then◌else◌,
}
use poc_dcs.Strings.{has_suffix, repeat}
use poc_dcs.Strconv.{atoi}

-- `s[:n]`
abbrev pub prefix : ℕ → Text → Text
prefix zero s = []
prefix (suc n) [] = []
prefix (suc n) (b ∷ s) = b ∷ prefix n s

abbrev is_nil : Text → Bool
is_nil [] = true
is_nil (b ∷ s) = false

unfoldable pub mask_string : Text → Text
mask_string s =
    if is_nil s
    then []
    else if leb (length s) 2
    then repeat b'*' (length s)
    else prefix 1 s ++ bytes "***"

unfoldable pub mask_age : ℤ → Text
mask_age age = if ltb_ℤ age (pos 18) then bytes "-18" else bytes "+18"

-- The bytes of the ellipsis "…".
abbrev pub ellipsis : Text
ellipsis = 0xE2 ∷ 0x80 ∷ 0xA6 ∷ []

unfoldable pub mask_uuid : Text → Text
mask_uuid id = if leb (length id) 8 then bytes "****" else prefix 4 id ++ ellipsis

abbrev pub mask_age_text : Option ℤ → Text
mask_age_text none = bytes "***"
mask_age_text (some age) = mask_age age

unfoldable pub apply_mask : String → Text → Text
unfolding mask_string mask_age mask_uuid
apply_mask field plaintext =
    if field == "age"
    then mask_age_text (atoi plaintext)
    else if has_suffix field "_id" && not (field == "external_id")
    then mask_uuid plaintext
    else mask_string plaintext
