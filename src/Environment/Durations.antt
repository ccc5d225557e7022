-- ===== src/Environment/Durations.antt =====
-- The durations of the configuration, and what survives the 64 bits.
use poc_dcs.Common.{
  String, bytes, ◌⊎◌, inl, inr, sym, ℕ, zero, suc, ◌*◌, ◌≤◌, ◌≡◌, refl, arith, ℤ, pos, negsuc,
  Option, none, some,
}
use poc_dcs.Strings.{trim_space}
use poc_dcs.Strconv.{atoi}
use poc_dcs.Environment.{wrapped, seconds_or, parse_duration_seconds}

-- The most seconds whose nanoseconds fit into an `int64`.
abbrev pub max_seconds : ℕ
max_seconds = 9_223_372_036

-- No number, or no positive one.
abbrev pub IsNoDuration : Option ℤ → Type 0
IsNoDuration none = Unit
IsNoDuration (some (negsuc n)) = Unit
IsNoDuration (some (pos n)) = n ≡ 0

-- The seconds that a text stands for: its number, where that is positive, or else the fallback.
abbrev pub StandsFor : String → ℕ → ℕ → Type 0
StandsFor raw fallback n =
    ((atoi (bytes (trim_space raw)) ≡ some (pos n)) × (1 ≤ n))
    ⊎ (IsNoDuration (atoi (bytes (trim_space raw))) × (n ≡ fallback))

seconds_or-fallback :
    (o : Option ℤ) (fallback : ℕ) → IsNoDuration o → seconds_or fallback o ≡ fallback
seconds_or-fallback none fallback h = refl
seconds_or-fallback (some (negsuc n)) fallback h = refl
seconds_or-fallback (some (pos zero)) fallback h = refl
seconds_or-fallback (some (pos (suc n))) fallback h = omega (arith, h)

seconds_or-number : (n fallback : ℕ) → 1 ≤ n → seconds_or fallback (some (pos n)) ≡ n
seconds_or-number zero fallback h = omega (arith, h)
seconds_or-number (suc n) fallback h = refl

wrapped_fits : (n : ℕ) → n ≤ max_seconds → wrapped (n * 1_000_000_000) ≡ pos (n * 1_000_000_000)
wrapped_fits n h = ground arith

-- A text that, trimmed, is a positive number of at most 9,223,372,036 is read as that many seconds,
-- and a text that is no positive number as the fallback, if that is within the same bound.
pub parse_duration_seconds_exact :
    (raw : String) (fallback n : ℕ)
    → StandsFor raw fallback n
    → n ≤ max_seconds
    → parse_duration_seconds raw fallback ≡ pos (n * 1_000_000_000)
unfolding parse_duration_seconds
parse_duration_seconds_exact raw fallback n (inl (number, positive)) fits =
    rw (number, seconds_or-number n fallback positive) (wrapped_fits n fits)
parse_duration_seconds_exact raw fallback n (inr (none_given, same)) fits =
    rw (seconds_or-fallback (atoi (bytes (trim_space raw))) fallback none_given, sym same)
      (wrapped_fits n fits)

-- One second more, and the duration is negative.
overflow : wrapped (9_223_372_037 * 1_000_000_000) ≡ negsuc 9_223_372_036_709_551_615
overflow = refl
