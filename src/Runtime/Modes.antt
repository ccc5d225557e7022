-- ===== src/Runtime/Modes.antt =====
-- What the settings hold after any sequence of calls, and when the DCS is off.
use poc_dcs.Common.{
  String, Option, none, some, ℤ, List, [], ◌∷◌, ◌≡◌, ◌≢◌, ◌⊎◌, ◌↔◌, inl, inr, false, Bool, pos,
  negsuc, arith, eq_iff, is_negative, refl, string_eq, not, ◌&&◌, if◌then◌else◌, ◌==◌, ap, ◌∙◌,
  Bool-cases, subst, sym,
}
use poc_dcs.Strings.{trim_space, to_lower}
use poc_dcs.Strings.Laws.{to_lower_idem, trim_space_idem, trim_space-to_lower}
use poc_dcs.Runtime.{
  Settings, new, set, set_mode, set_level, normalize_mode, normalize_level, dcs_enabled,
}

-- The mode is not empty, and has neither blanks around it nor capital letters; the level is not
-- negative.
pub record IsNormal (s : Settings) : Type 0 where
  pub named : s.dcs_mode ≢ ""
  pub trimmed : trim_space s.dcs_mode ≡ s.dcs_mode
  pub lowered : to_lower s.dcs_mode ≡ s.dcs_mode
  pub level : is_negative s.cache_level ≡ false

trim_space-cleaned : (m : String) → trim_space (to_lower (trim_space m)) ≡ to_lower (trim_space m)
trim_space-cleaned m = trim_space-to_lower (trim_space m) ∙ ap to_lower (trim_space_idem m)

on_trimmed : (trim_space "on" ≡ "on") × (to_lower "on" ≡ "on")
unfolding trim_space to_lower
on_trimmed = (refl, refl)

normalize_mode-ne-empty : (m : String) → normalize_mode m ≢ ""
unfolding normalize_mode
normalize_mode-ne-empty m = ground (arith, eq_iff (to_lower (trim_space m)) "", eq_iff "on" "")

normalize_mode-trimmed : (m : String) → trim_space (normalize_mode m) ≡ normalize_mode m
unfolding normalize_mode
normalize_mode-trimmed m = ground (arith, trim_space-cleaned m, on_trimmed)

normalize_mode-lowered : (m : String) → to_lower (normalize_mode m) ≡ normalize_mode m
unfolding normalize_mode
normalize_mode-lowered m = ground (arith, to_lower_idem (trim_space m), on_trimmed)

is_negative-normalize_level : (n : ℤ) → is_negative (normalize_level n) ≡ false
unfolding normalize_level
is_negative-normalize_level (pos n) = refl
is_negative-normalize_level (negsuc n) = refl

new-IsNormal : (mode : String) (level : ℤ) → IsNormal (new mode level)
unfolding new
new-IsNormal mode level = record {
  named = normalize_mode-ne-empty mode;
  trimmed = normalize_mode-trimmed mode;
  lowered = normalize_mode-lowered mode;
  level = is_negative-normalize_level level;
}

set_mode-IsNormal : (mode : Option String) (s : Settings) → IsNormal s → IsNormal (set_mode mode s)
unfolding set_mode
set_mode-IsNormal none s h = h
set_mode-IsNormal (some mode) s h = record {
  named = normalize_mode-ne-empty mode;
  trimmed = normalize_mode-trimmed mode;
  lowered = normalize_mode-lowered mode;
  level = h.level;
}

set_level-IsNormal : (level : Option ℤ) (s : Settings) → IsNormal s → IsNormal (set_level level s)
unfolding set_level
set_level-IsNormal none s h = h
set_level-IsNormal (some level) s h = record {
  named = h.named;
  trimmed = h.trimmed;
  lowered = h.lowered;
  level = is_negative-normalize_level level;
}

-- The settings after the calls of `Set`, in order.
abbrev pub after : Settings → List (Option String × Option ℤ) → Settings
after s [] = s
after s ((mode, level) ∷ calls) = after (set s mode level) calls

after-IsNormal :
    (s : Settings) (calls : List (Option String × Option ℤ)) → IsNormal s → IsNormal (after s calls)
unfolding set
after-IsNormal s [] h = h
after-IsNormal s ((mode, level) ∷ calls) h =
    after-IsNormal (set s mode level) calls
      (set_level-IsNormal level (set_mode mode s) (set_mode-IsNormal mode s h))

-- Whatever the initial mode and level and whatever `Set` was called with, the mode is not empty,
-- trimmed and in lower case, and the cache level is not negative.
settings_IsNormal :
    (mode : String) (level : ℤ) (calls : List (Option String × Option ℤ))
    → IsNormal (after (new mode level) calls)
settings_IsNormal mode level calls = after-IsNormal (new mode level) calls (new-IsNormal mode level)

abbrev IsOffWord : String → Type 0
IsOffWord w = (w ≡ "off") ⊎ (w ≡ "false") ⊎ (w ≡ "0") ⊎ (w ≡ "no")

-- The four tests, at the word that stands in for the empty one.
enabled_word : String → Bool
enabled_word w =
    let mode = if w == "" then "on" else w in
    not (mode == "off") && not (mode == "false") && not (mode == "0") && not (mode == "no")

enabled_word_iff : (w : String) → (enabled_word w ≡ false) ↔ IsOffWord w
unfolding enabled_word
enabled_word_iff w = elim (Bool-cases (w == "")) [
  | inl empty ↦
      subst (λ v. (enabled_word v ≡ false) ↔ IsOffWord v) (sym ((eq_iff w "").0 empty))
        (ground (arith, eq_iff "" "off", eq_iff "" "false", eq_iff "" "0", eq_iff "" "no"))
  | inr named ↦
      rw (named, enabled_word)
        (ground (arith, eq_iff w "off", eq_iff w "false", eq_iff w "0", eq_iff w "no"))
]

-- Setting a mode turns the DCS off exactly for four words, up to case and blanks around them; any
-- other text, the empty one too, turns it on.
pub dcs_off_iff :
    (s : Settings) (mode : String) (level : Option ℤ)
    → (dcs_enabled (set s (some mode) level) ≡ false) ↔ (
        (to_lower (trim_space mode) ≡ "off")
        ⊎ (to_lower (trim_space mode) ≡ "false")
        ⊎ (to_lower (trim_space mode) ≡ "0")
        ⊎ (to_lower (trim_space mode) ≡ "no"))
unfolding dcs_enabled set enabled_word
dcs_off_iff s mode none = enabled_word_iff (to_lower (trim_space mode))
dcs_off_iff s mode (some level) = enabled_word_iff (to_lower (trim_space mode))
