-- ===== src/Runtime.antt =====
-- internal/dcs/runtime/settings.go: the DCS mode and the cache level, set at run time. The lock
-- makes each method atomic.
pub mod Modes
use poc_dcs.Common.{
  String, Bool, true, ◌&&◌, not, Option, none, some, ℤ, pos, is_negative, string_eq, ◌==◌,
  if◌then◌else◌,
}
use poc_dcs.Strings.{trim_space, to_lower}

pub record Settings : Type 0 where
  pub dcs_mode : String
  pub cache_level : ℤ

unfoldable pub normalize_mode : String → String
normalize_mode s = let mode = to_lower (trim_space s) in if mode == "" then "on" else mode

unfoldable pub normalize_level : ℤ → ℤ
normalize_level n = if is_negative n then pos 0 else n

unfoldable pub new : String → ℤ → Settings
unfolding normalize_mode normalize_level
new default_mode default_level = record {
  dcs_mode = normalize_mode default_mode;
  cache_level = normalize_level default_level;
}

-- A nil pointer leaves its field.
set_mode : Option String → Settings → Settings
set_mode none s = s
set_mode (some mode) s = record s { dcs_mode = normalize_mode mode }

set_level : Option ℤ → Settings → Settings
set_level none s = s
set_level (some level) s = record s { cache_level = normalize_level level }

unfoldable pub set : Settings → Option String → Option ℤ → Settings
unfolding set_mode set_level normalize_mode normalize_level
set s mode level = set_level level (set_mode mode s)

unfoldable pub dcs_enabled : Settings → Bool
dcs_enabled s =
    let mode = s.dcs_mode in
    not (mode == "off") && not (mode == "false") && not (mode == "0") && not (mode == "no")
