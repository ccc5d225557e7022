-- ===== src/Strconv/RoundTrip.antt =====
-- What is printed is read back.
use poc_dcs.Common.{Bool-cases, inl, inr}
use poc_dcs.Common.{
  ℕ, zero, suc, ◌+◌, ◌/◌, ◌%◌, ◌<◌, ◌≡◌, refl, ◌∙◌, sym, subst, some, [], ◌∷◌, true, false, Text, ℤ,
  pos, negsuc, arith, ltb,
}
use poc_dcs.Strconv.{digits_from, format, itoa, scan, atoi, is_digit, unsigned, bounded, max_int}

scan-digits_from :
    (fuel n : ℕ) (out : Text) → n < fuel → scan (digits_from fuel n out) 0 ≡ scan out n
unfolding digits_from scan
scan-digits_from zero n out h = absurd (omega arith)
scan-digits_from (suc fuel) n out h =
    ground (arith, scan-digits_from fuel (n / 10) ((b'0' + n % 10) ∷ out))

-- The print begins with a digit.
head-digits_from :
    (fuel n : ℕ) (out : Text)
    → n < fuel
    → (c : ℕ) × (s : Text) × (digits_from fuel n out ≡ c ∷ s) × (is_digit c ≡ true)
unfolding digits_from
head-digits_from zero n out h = absurd (omega arith)
head-digits_from (suc fuel) n out h = elim (Bool-cases (ltb n 10)) [
  | inl last ↦ (b'0' + n, out, rw last, ground arith)
  | inr more ↦
      let (c, s, e, d) = head-digits_from fuel (n / 10) ((b'0' + n % 10) ∷ out) (ground arith) in
      (c, s, rw more e, d)
]

scan-format : (n : ℕ) → scan (format n) 0 ≡ some n
unfolding format scan
scan-format n = scan-digits_from (suc n) n [] (omega arith)

head-format : (n : ℕ) → (c : ℕ) × (s : Text) × (format n ≡ c ∷ s) × (is_digit c ≡ true)
unfolding format
head-format n = head-digits_from (suc n) n [] (omega arith)

unsigned_of_cons : (t : Text) {c : ℕ} {s : Text} → t ≡ c ∷ s → unsigned t ≡ scan t 0
unsigned_of_cons t {c} {s} e = subst (λ u. unsigned u ≡ scan u 0) (sym e) refl

unsigned-format : (n : ℕ) → unsigned (format n) ≡ some n
unsigned-format n =
    let (c, s, e, d) = head-format n in unsigned_of_cons (format n) e ∙ scan-format n

atoi_of_digit :
    (t : Text) {c : ℕ} {s : Text}
    → t ≡ c ∷ s
    → is_digit c ≡ true
    → atoi t ≡ bounded false (unsigned t)
unfolding atoi
atoi_of_digit t {c} {s} e d =
    subst (λ u. atoi u ≡ bounded false (unsigned u)) (sym e) (ground arith)

abbrev pub IsInt : ℤ → Type 0
IsInt (pos n) = n < max_int
IsInt (negsuc n) = n < max_int

-- Every 64-bit integer is read back from its decimal print.
pub atoi-itoa : (n : ℤ) → IsInt n → atoi (itoa n) ≡ some n
unfolding itoa
atoi-itoa (pos n) h =
    let (c, s, e, d) = head-format n in
    atoi_of_digit (format n) e d ∙ rw (unsigned-format n) (ground arith)
atoi-itoa (negsuc n) h =
    atoi_of_minus (format (suc n)) ∙ rw (unsigned-format (suc n)) (ground arith)
  where
    atoi_of_minus : (t : Text) → atoi (b'-' ∷ t) ≡ bounded true (unsigned t)
    atoi_of_minus t = unfold atoi in refl
