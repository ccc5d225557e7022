-- ===== src/Pep/Mask/Hiding.antt =====
-- A mask shows no more than a bounded part of the value.
use poc_dcs.Strings.{has_suffix}
use poc_dcs.Common.{not, ◌&&◌, ◌↔◌}
use poc_dcs.Common.{
  String, Text, ℕ, ◌≡◌, refl, [], ◌∷◌, true, false, Bool, some, none, Option, ℤ, pos, length, arith,
  ltb_ℤ, string_eq, ◌==◌, leb, if◌then◌else◌,
}
use poc_dcs.Strconv.{atoi}
use poc_dcs.Pep.Mask.{prefix, mask_string, mask_age, mask_uuid, apply_mask, mask_age_text}

-- What a masked text still tells: its length, if it has two bytes at most, or its first byte.
pub data Outline : Type 0 where
  short : ℕ → Outline
  long : ℕ → Outline

abbrev pub outline : Text → Outline
outline [] = short 0
outline (a ∷ []) = short 1
outline (a ∷ b ∷ []) = short 2
outline (a ∷ b ∷ c ∷ s) = long a

-- Two texts have the same mask exactly if they have the same outline.
pub mask_string_iff : (s t : Text) → (mask_string s ≡ mask_string t) ↔ (outline s ≡ outline t)
unfolding mask_string
mask_string_iff [] [] = ground arith
mask_string_iff [] (d ∷ []) = ground arith
mask_string_iff [] (d ∷ e ∷ []) = ground arith
mask_string_iff [] (d ∷ e ∷ f ∷ t) = ground arith
mask_string_iff (a ∷ []) [] = ground arith
mask_string_iff (a ∷ []) (d ∷ []) = ground arith
mask_string_iff (a ∷ []) (d ∷ e ∷ []) = ground arith
mask_string_iff (a ∷ []) (d ∷ e ∷ f ∷ t) = ground arith
mask_string_iff (a ∷ b ∷ []) [] = ground arith
mask_string_iff (a ∷ b ∷ []) (d ∷ []) = ground arith
mask_string_iff (a ∷ b ∷ []) (d ∷ e ∷ []) = ground arith
mask_string_iff (a ∷ b ∷ []) (d ∷ e ∷ f ∷ t) = ground arith
mask_string_iff (a ∷ b ∷ c ∷ s) [] = ground arith
mask_string_iff (a ∷ b ∷ c ∷ s) (d ∷ []) = ground arith
mask_string_iff (a ∷ b ∷ c ∷ s) (d ∷ e ∷ []) = ground arith
mask_string_iff (a ∷ b ∷ c ∷ s) (d ∷ e ∷ f ∷ t) = ground arith

-- What a masked identifier still tells: that it is short, or its first four bytes.
abbrev pub uuid_outline : Text → Option Text
uuid_outline id = if leb (length id) 8 then none else some (prefix 4 id)

-- What a masked age still tells: that it is no number, or on which side of 18 it is.
abbrev pub age_outline : Option ℤ → Option Bool
age_outline none = none
age_outline (some age) = some (ltb_ℤ age (pos 18))

-- What the mask of a field still tells of its value.
pub data Shown : Type 0 where
  age : Option Bool → Shown
  id : Option Text → Shown
  text : Outline → Shown

abbrev pub shown : String → Text → Shown
shown field plaintext =
    if field == "age"
    then age (age_outline (atoi plaintext))
    else if has_suffix field "_id" && not (field == "external_id")
    then id (uuid_outline plaintext)
    else text (outline plaintext)

mask_uuid_hides : (s t : Text) → uuid_outline s ≡ uuid_outline t → mask_uuid s ≡ mask_uuid t
unfolding mask_uuid
mask_uuid_hides s t h = ground arith

mask_age_hides :
    (a b : Option ℤ) → age_outline a ≡ age_outline b → mask_age_text a ≡ mask_age_text b
unfolding mask_age
mask_age_hides none none h = refl
mask_age_hides none (some b) h = ground arith
mask_age_hides (some a) none h = ground arith
mask_age_hides (some a) (some b) h = ground arith

-- The branches of `apply_mask` and of `shown`, by the two tests on the field's name.
masked_by : Bool → Bool → Text → Text
masked_by is_age is_id p =
    if is_age then mask_age_text (atoi p) else if is_id then mask_uuid p else mask_string p

shown_by : Bool → Bool → Text → Shown
shown_by is_age is_id p =
    if is_age
    then age (age_outline (atoi p))
    else if is_id
    then id (uuid_outline p)
    else text (outline p)

masked_by_hides :
    (is_age is_id : Bool) (p q : Text)
    → shown_by is_age is_id p ≡ shown_by is_age is_id q
    → masked_by is_age is_id p ≡ masked_by is_age is_id q
unfolding masked_by shown_by
masked_by_hides true is_id p q h = mask_age_hides (atoi p) (atoi q) (cc)
masked_by_hides false true p q h = mask_uuid_hides p q (cc)
masked_by_hides false false p q h = (mask_string_iff p q).1 (cc)

-- The mask of a field depends on nothing of the value but what `shown` tells: for the age the side
-- of 18, for an identifier of more than 8 bytes the first four, for another text of more than 2
-- bytes the first, and for a shorter text its length.
apply_mask_hides :
    (field : String) (p q : Text)
    → shown field p ≡ shown field q
    → apply_mask field p ≡ apply_mask field q
unfolding apply_mask masked_by shown_by
apply_mask_hides field p q h =
    masked_by_hides (field == "age") (has_suffix field "_id" && not (field == "external_id")) p q h
