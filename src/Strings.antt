-- ===== src/Strings.antt =====
-- What the program uses of Go's `strings` package, over the native `String`. `to_lower` maps the
-- ASCII letters and leaves every other character: Go's Unicode case tables are not modelled.
pub mod Laws
use poc_dcs.Common.{Text, text_beq, bytes, ℕ, zero, suc, [], ◌∷◌}
use Prim.Native.Char.{Char, code}
use Prim.Native.String.{char_at}
use poc_dcs.Common.{String, Bool, true, ◌≡◌, refl, false, ◌&&◌, ◌||◌, ◌-◌, leb, eqb, if◌then◌else◌}

-- unicode.IsSpace: the Latin-1 blanks and the other characters with the property White_Space.
unfoldable pub is_space : Char → Bool
is_space c =
    let n = code c in
    (leb 9 n && leb n 13)
    || eqb n 32
    || eqb n 0x85
    || eqb n 0xA0
    || eqb n 0x1680
    || (leb 0x2000 n && leb n 0x200a)
    || eqb n 0x2028
    || eqb n 0x2029
    || eqb n 0x202f
    || eqb n 0x205f
    || eqb n 0x3000

abbrev pub is_empty : String → Bool
is_empty String.[] = true
is_empty (String.◌∷◌ c s) = false

unfoldable pub trim_left : String → String
trim_left String.[] = String.[]
trim_left (String.◌∷◌ c s) = if is_space c then trim_left s else String.◌∷◌ c s

unfoldable pub trim_right : String → String
trim_right String.[] = String.[]
trim_right (String.◌∷◌ c s) =
    let rest = trim_right s in if is_space c && is_empty rest then String.[] else String.◌∷◌ c rest

-- strings.TrimSpace
unfoldable pub trim_space : String → String
unfolding trim_left trim_right is_space
trim_space s = trim_right (trim_left s)

unfoldable pub lower_char : Char → Char
lower_char c =
    if leb b'A' (code c) && leb (code c) b'Z'
    then char_at "abcdefghijklmnopqrstuvwxyz" (code c - b'A')
    else c

-- strings.ToLower
unfoldable pub to_lower : String → String
unfolding lower_char
to_lower String.[] = String.[]
to_lower (String.◌∷◌ c s) = String.◌∷◌ (lower_char c) (to_lower s)

abbrev pub ends_with : Text → Text → Bool
ends_with [] t = text_beq [] t
ends_with (a ∷ s) t = text_beq (a ∷ s) t || ends_with s t

-- strings.HasSuffix
abbrev pub has_suffix : String → String → Bool
has_suffix s t = ends_with (bytes s) (bytes t)

-- strings.Repeat of one byte
abbrev pub repeat : ℕ → ℕ → Text
repeat b zero = []
repeat b (suc n) = b ∷ repeat b n

trim_test : trim_space "  On\n" ≡ "On"
unfolding trim_space
trim_test = refl
