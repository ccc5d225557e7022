-- ===== src/Http/Parameters/Bounds.antt =====
-- The limit of a list.
use poc_dcs.Common.{
  bytes, ℤ, pos, ◌≤ℤ◌, ◌≡◌, arith, Option, none, some, Bool-cases, inl, inr, string_eq, ◌==◌,
  if◌then◌else◌, subst,
}
use poc_dcs.Strings.{trim_space}
use poc_dcs.Strconv.{atoi}
use poc_dcs.Http.Exchange.{Request}
use poc_dcs.Http.Parameters.{between, parse_limit}

between_range :
    (low high : ℤ) (o : Option ℤ) (n : ℤ) → between low high o ≡ some n → (low ≤ℤ n) × (n ≤ℤ high)
between_range low high none n h = cc
between_range low high (some val) n h = ground arith

-- A limit that is accepted, the one of a blank parameter included, is from 1 to 1000.
pub parse_limit_range :
    (r : Request) (n : ℤ) → parse_limit r ≡ some n → (pos 1 ≤ℤ n) × (n ≤ℤ pos 1000)
unfolding parse_limit
parse_limit_range r n h =
    let raw = trim_space (r.query "limit") in
    elim (Bool-cases (raw == "")) [
      | inl blank ↦
          let two_hundred : pos 200 ≡ n = cc (h, blank) in
          subst (λ m. (pos 1 ≤ℤ m) × (m ≤ℤ pos 1000)) two_hundred (omega arith)
      | inr given ↦ between_range (pos 1) (pos 1000) (atoi (bytes raw)) n (
          subst
            (λ b.
              (if b then some (pos 200) else between (pos 1) (pos 1000) (atoi (bytes raw)))
              ≡ some n)
            given h)
    ]
