-- ===== src/Observability.antt =====
-- internal/observability/perf/context.go: the times of a request. A time in milliseconds with three
-- decimals counts microseconds; the lock makes each call atomic.
pub mod Sums
use poc_dcs.Common.{
  String, ℕ, ◌+◌, ◌-◌, Option, none, some, [], Map, lookup, insert, eqb, string_eq, if◌then◌else◌,
}

-- `perf.Context`, with the moment in microseconds at which it started.
pub record Context : Type 0 where
  pub start : ℕ
  pub metrics : Map String ℕ

abbrev pub new : ℕ → Context
new now = record { start = now; metrics = [] }

abbrev pub or_zero : Option ℕ → ℕ
or_zero none = 0
or_zero (some n) = n

-- `p.metrics[key] += ms`
unfoldable pub add : String → ℕ → Context → Context
add key us p = record p { metrics = insert key (or_zero (lookup key p.metrics) + us) p.metrics }

-- A metric, as `Metrics` copies it; a missing key is none.
unfoldable pub metric : String → Context → Option ℕ
metric key p = lookup key p.metrics

-- `TotalMS`: the clock does not run backwards.
abbrev pub total : ℕ → Context → ℕ
total now p = now - p.start

-- The end of a span: a time of zero counts as one microsecond. Without a context nothing is noted.
unfoldable pub end_span : String → (begun now : ℕ) → Option Context → Option Context
unfolding add
end_span key begun now none = none
end_span key begun now (some p) = some (add key (if eqb (now - begun) 0 then 1 else now - begun) p)
