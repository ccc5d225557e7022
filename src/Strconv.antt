-- ===== src/Strconv.antt =====
-- Go's `strconv.Itoa` and `strconv.Atoi` on a 64-bit `int`.
pub mod Floats
pub mod RoundTrip
use poc_dcs.Common.{
  ℕ, zero, suc, ◌+◌, ◌-◌, ◌*◌, ◌/◌, ◌%◌, ◌^◌, Bool, true, false, ◌&&◌, ◌||◌, ◌≡◌, refl, Option,
  none, some, List, [], ◌∷◌, Text, bytes, ℤ, pos, negsuc, ltb, leb, eqb, if◌then◌else◌,
}

abbrev pub max_int : ℕ
max_int = 2 ^ 63

-- The decimal digits of `n` in front of `out`; every round divides `n` by 10.
unfoldable pub digits_from : ℕ → ℕ → Text → Text
digits_from zero n out = out
digits_from (suc fuel) n out =
    let more = digits_from fuel (n / 10) ((b'0' + n % 10) ∷ out) in
    if ltb n 10 then (b'0' + n) ∷ out else more

unfoldable pub format : ℕ → Text
unfolding digits_from
format n = digits_from (suc n) n []

unfoldable pub itoa : ℤ → Text
unfolding format
itoa (pos n) = format n
itoa (negsuc n) = b'-' ∷ format (suc n)

-- The unit of the last of the 53 bits that a float64 keeps of `n`, which is below 2 ^ 64.
unfoldable pub unit_of : ℕ → ℕ → ℕ → ℕ
unit_of zero unit n = unit
unit_of (suc fuel) unit n =
    let coarser = unit_of fuel (unit * 2) n in if ltb n (2 ^ 53 * unit) then unit else coarser

-- The nearest multiple of the unit, and of two the even one.
abbrev pub nearest : ℕ → ℕ → ℕ
nearest zero n = n
nearest (suc u) n =
    let unit = suc u in
    let q = n / unit in
    let r = n % unit in
    if ltb (2 * r) unit || eqb (2 * r) unit && eqb (q % 2) 0 then q * unit else (q + 1) * unit

unfoldable pub float_nat : ℕ → ℕ
unfolding unit_of
float_nat n = nearest (unit_of 11 1 n) n

-- The integer that is read where the text of one is read as a float64.
unfoldable pub float_int : ℤ → ℤ
unfolding float_nat
float_int (pos n) = pos (float_nat n)
float_int (negsuc n) = negsuc (float_nat (suc n) - 1)

abbrev pub is_digit : ℕ → Bool
is_digit c = leb b'0' c && leb c b'9'

-- The number that the digits spell behind `n`; `none` at any other byte.
unfoldable pub scan : Text → ℕ → Option ℕ
scan [] n = some n
scan (c ∷ s) n = if is_digit c then scan s (n * 10 + (c - b'0')) else none

abbrev pub unsigned : Text → Option ℕ
unsigned [] = none
unsigned (c ∷ s) = scan (c ∷ s) 0

abbrev pub negate : ℕ → ℤ
negate zero = pos 0
negate (suc m) = negsuc m

-- The range of int64 is not symmetric.
abbrev pub in_range : Bool → ℕ → Option ℤ
in_range true n = if leb n max_int then some (negate n) else none
in_range false n = if ltb n max_int then some (pos n) else none

abbrev pub bounded : Bool → Option ℕ → Option ℤ
bounded negative none = none
bounded negative (some n) = in_range negative n

unfoldable pub atoi : Text → Option ℤ
unfolding scan
atoi [] = none
atoi (c ∷ s) =
    if eqb c b'-'
    then bounded true (unsigned s)
    else if eqb c b'+'
    then bounded false (unsigned s)
    else bounded false (unsigned (c ∷ s))

atoi_tests :
    (atoi (bytes "-42") ≡ some (negsuc 41))
    × (atoi (bytes "9223372036854775808") ≡ none)
    × (atoi (bytes "12a") ≡ none)
    × (itoa (pos 120) ≡ bytes "120")
unfolding atoi itoa
atoi_tests = (refl, refl, refl, refl)
