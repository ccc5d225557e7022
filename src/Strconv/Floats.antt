-- ===== src/Strconv/Floats.antt =====
-- Integers as float64: those of less than 54 bits are kept.
use poc_dcs.Common.{
  ℕ, suc, ◌+◌, ◌^◌, ◌<◌, ◌≤◌, ◌≡◌, ◌⊎◌, refl, ap, inl, inr, arith, ℤ, pos, negsuc, ltb, Bool-cases,
  pos_part, neg_part,
}
use poc_dcs.Strconv.{unit_of, nearest, float_nat, float_int}

-- The size of an integer.
abbrev pub size : ℤ → ℕ
size n = pos_part n + neg_part n

unit_of_small : (n : ℕ) → n < 2 ^ 53 → unit_of 11 1 n ≡ 1
unfolding unit_of
unit_of_small n h = ground arith

nearest_one : (n : ℕ) → nearest 1 n ≡ n
nearest_one n = ground arith

float_nat_small : (n : ℕ) → n < 2 ^ 53 → float_nat n ≡ n
unfolding float_nat
float_nat_small n h = rw (unit_of_small n h) (nearest_one n)

pub float_int_small : (n : ℤ) → (float_int n ≡ n) ⊎ (2 ^ 53 ≤ size n)
unfolding float_int
float_int_small (pos n) = elim (Bool-cases (ltb n (2 ^ 53))) [
  | inl small ↦ inl (ap pos (float_nat_small n (ground arith)))
  | inr large ↦ inr (ground arith)
]
float_int_small (negsuc n) = elim (Bool-cases (ltb (suc n) (2 ^ 53))) [
  | inl small ↦ inl (rw (float_nat_small (suc n) (ground arith)) (ap negsuc (omega arith)))
  | inr large ↦ inr (ground arith)
]

-- Of two neighbours that are as near, the even one.
rounds_down : float_nat (2 ^ 53 + 1) ≡ 2 ^ 53
unfolding float_nat unit_of
rounds_down = refl

rounds_up : float_nat (2 ^ 53 + 3) ≡ 2 ^ 53 + 4
unfolding float_nat unit_of
rounds_up = refl
