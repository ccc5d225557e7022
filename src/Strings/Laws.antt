-- ===== src/Strings/Laws.antt =====
-- Trimming and lowering twice is trimming and lowering once.
use Prim.Native.Char.{Char, code}
use Prim.Native.String.{char_at}
use poc_dcs.Common.{
  if◌then◌else◌, String, Bool, true, false, ℕ, zero, suc, ◌+◌, ◌-◌, ◌≤◌, ◌<◌, ◌≡◌, refl, arith, eqb,
}
use poc_dcs.Strings.{to_lower, lower_char, is_space, trim_left, trim_right, trim_space, is_empty}

-- A test that holds at each of the first numbers.
holds_to : (ℕ → Bool) → ℕ → Bool
holds_to test zero = true
holds_to test (suc limit) = if test limit then holds_to test limit else false

holds_at : (test : ℕ → Bool) (limit x : ℕ) → x < limit → holds_to test limit ≡ true → test x ≡ true
unfolding holds_to
holds_at test zero x below all = absurd (omega arith)
holds_at test (suc limit) x below all = ground (arith, holds_at test limit x)

abbrev alphabet : String
alphabet = "abcdefghijklmnopqrstuvwxyz"

alphabet_table : holds_to (λ n. eqb (code (char_at alphabet n)) (n + 97)) 26 ≡ true
unfolding holds_to
alphabet_table = refl

code-alphabet : (n : ℕ) → n < 26 → code (char_at alphabet n) ≡ n + 97
code-alphabet n h =
    ground (arith, holds_at (λ m. eqb (code (char_at alphabet m)) (m + 97)) 26 n h alphabet_table)

is_space_of_letter : (c : Char) → 65 ≤ code c → code c ≤ 122 → is_space c ≡ false
unfolding is_space
is_space_of_letter c h k = ground arith

is_space-lower_char : (c : Char) → is_space (lower_char c) ≡ is_space c
unfolding lower_char
is_space-lower_char c = ground (
  arith,
  code-alphabet (code c - 65),
  is_space_of_letter c,
  is_space_of_letter (char_at alphabet (code c - 65)),
)

lower_char_idem : (c : Char) → lower_char (lower_char c) ≡ lower_char c
unfolding lower_char
lower_char_idem c = ground (arith, code-alphabet (code c - 65))

pub to_lower_idem : (s : String) → to_lower (to_lower s) ≡ to_lower s
unfolding to_lower
to_lower_idem String.[] = refl
to_lower_idem (String.◌∷◌ c s) = cc (lower_char_idem c, to_lower_idem s)

is_empty-to_lower : (s : String) → is_empty (to_lower s) ≡ is_empty s
unfolding to_lower
is_empty-to_lower String.[] = refl
is_empty-to_lower (String.◌∷◌ c s) = refl

trim_left-to_lower : (s : String) → trim_left (to_lower s) ≡ to_lower (trim_left s)
unfolding trim_left to_lower
trim_left-to_lower String.[] = refl
trim_left-to_lower (String.◌∷◌ c s) = ground (arith, is_space-lower_char c, trim_left-to_lower s)

trim_right-to_lower : (s : String) → trim_right (to_lower s) ≡ to_lower (trim_right s)
unfolding trim_right to_lower
trim_right-to_lower String.[] = refl
trim_right-to_lower (String.◌∷◌ c s) =
    ground (arith, is_space-lower_char c, trim_right-to_lower s, is_empty-to_lower (trim_right s))

pub trim_space-to_lower : (s : String) → trim_space (to_lower s) ≡ to_lower (trim_space s)
unfolding trim_space
trim_space-to_lower s = rw trim_left-to_lower (trim_right-to_lower (trim_left s))

trim_right_idem : (s : String) → trim_right (trim_right s) ≡ trim_right s
unfolding trim_right
trim_right_idem String.[] = refl
trim_right_idem (String.◌∷◌ c s) = ground (arith, trim_right_idem s)

trim_left_of_trimmed :
    (s : String) → trim_left (trim_right (trim_left s)) ≡ trim_right (trim_left s)
unfolding trim_left trim_right
trim_left_of_trimmed String.[] = refl
trim_left_of_trimmed (String.◌∷◌ c s) = ground (arith, trim_left_of_trimmed s)

pub trim_space_idem : (s : String) → trim_space (trim_space s) ≡ trim_space s
unfolding trim_space
trim_space_idem s = rw trim_left_of_trimmed (trim_right_idem (trim_left s))

lower_test : to_lower "A-Z OFF é" ≡ "a-z off é"
unfolding to_lower
lower_test = refl
