-- ===== src/Kms/Vault/Paths.antt =====
-- The path of the pepper in Vault.
use poc_dcs.Common.{Text, bytes, ℕ, ◌≡◌, ◌≢◌, refl, ap, ◌∙◌, [], ◌∷◌, ◌++◌, some, none, arith}
use poc_dcs.Kms.{strip_prefix}
use poc_dcs.Kms.Vault.{trim_slashes_left, trim_slashes_right, keep_slash, under_mount, kv_path}

trim_right-keep :
    (b : ℕ) (s : Text)
    → trim_slashes_right s ≡ s
    → trim_slashes_right (keep_slash b s) ≡ keep_slash b s
unfolding trim_slashes_right
trim_right-keep b [] h = ground arith
trim_right-keep b (c ∷ s) h = ap (keep_slash b) h

trim_right_idem : (s : Text) → trim_slashes_right (trim_slashes_right s) ≡ trim_slashes_right s
unfolding trim_slashes_right
trim_right_idem [] = refl
trim_right_idem (b ∷ s) = trim_right-keep b (trim_slashes_right s) (trim_right_idem s)

-- A text that ends in no slash, and is not empty, still does so behind another text.
trim_right-append :
    (p s : Text) → s ≢ [] → trim_slashes_right s ≡ s → trim_slashes_right (p ++ s) ≡ p ++ s
unfolding trim_slashes_right
trim_right-append [] s some_text h = h
trim_right-append (b ∷ p) s some_text h =
    ap (keep_slash b) (trim_right-append p s some_text h) ∙ go p s some_text
  where
    go : (q t : Text) → t ≢ [] → keep_slash b (q ++ t) ≡ b ∷ (q ++ t)
    go [] [] nonempty = absurd (nonempty refl)
    go [] (c ∷ t) nonempty = refl
    go (c ∷ q) t nonempty = refl

-- The two spellings of a path below the mount `secret`, with and without `data/`, are read at the
-- same place; the text after the mount is not empty, ends in no slash and begins with no `data/`.
pub kv_path_spellings :
    (s : Text)
    → s ≢ []
    → trim_slashes_right s ≡ s
    → strip_prefix (bytes "data/") s ≡ none
    → (kv_path (bytes "secret/" ++ s) ≡ bytes "secret/data/" ++ s)
      × (kv_path (bytes "secret/data/" ++ s) ≡ bytes "secret/data/" ++ s)
unfolding kv_path trim_slashes_left
kv_path_spellings s some_text trimmed plain =
    let shorter = trim_right-append (bytes "secret/") s some_text trimmed in
    let longer = trim_right-append (bytes "secret/data/") s some_text trimmed in
    (
      ap
            (λ clean.
              under_mount clean (strip_prefix (bytes "secret/data/") clean)
                (strip_prefix (bytes "secret/") clean))
            shorter
          ∙ ap (λ o. under_mount (bytes "secret/" ++ s) o (some s)) plain,
      ap
          (λ clean.
            under_mount clean (strip_prefix (bytes "secret/data/") clean)
              (strip_prefix (bytes "secret/") clean))
          longer,
    )
