-- ===== src/Observability/Sums.antt =====
-- What the metrics add up to.
use poc_dcs.Common.{
  String, ℕ, ◌+◌, ◌-◌, ◌≡◌, refl, ap, ◌∙◌, arith, List, [], ◌∷◌, lookup, lookup-insert, string_eq,
  ◌==◌, Bool-cases, inl, inr, if◌then◌else◌, eqb,
}
use poc_dcs.Observability.{Context, add, or_zero, metric}

-- The spans of a request: a key, and when it began and ended.
pub record Span : Type 0 where
  pub key : String
  pub begun : ℕ
  pub ended : ℕ

abbrev pub spent : Span → ℕ
spent span = if eqb (span.ended - span.begun) 0 then 1 else span.ended - span.begun

unfoldable pub run : List Span → Context → Context
run [] p = p
run (span ∷ spans) p = run spans (add span.key (spent span) p)

-- What the spans of a key add up to.
unfoldable pub sum : String → List Span → ℕ
sum key [] = 0
sum key (span ∷ spans) =
    let rest = sum key spans in if span.key == key then spent span + rest else rest

or_zero-add :
    (key other : String) (us : ℕ) (p : Context)
    → or_zero (lookup key (add other us p).metrics) ≡ (
        if other == key
        then or_zero (lookup key p.metrics) + us
        else or_zero (lookup key p.metrics))
unfolding add
or_zero-add key other us p =
    let stored = or_zero (lookup other p.metrics) + us in
    ap or_zero (lookup-insert other key stored p.metrics) ∙ (elim (Bool-cases (other == key)) [
      | inl same ↦ rw (same, (string_eq.beq_iff other key).0 same) refl
      | inr different ↦ rw different refl
    ])

-- After any spans a metric is what the spans under its key add up to, above what it was.
pub run-sum :
    (key : String) (spans : List Span) (p : Context)
    → or_zero (metric key (run spans p)) ≡ or_zero (metric key p) + sum key spans
unfolding run sum metric
run-sum key [] p = omega arith
run-sum key (span ∷ spans) p =
    let step = or_zero-add key span.key (spent span) p in
    let rest = run-sum key spans (add span.key (spent span) p) in ground (arith, step, rest)
