-- ===== src/Kms/Lookup.antt =====
-- The local client gives back what it was given, and lookups do not tell spellings apart.
use poc_dcs.Common.{Text, ℕ, false, ◌≡◌, refl, ap, ◌∙◌, [], ◌∷◌, ◌++◌, some, ok, map, All, arith}
use poc_dcs.Kms.{
  Base64, is_blank, upper_byte, trim_left, trim_right, keep, normalize_external_id, strip_prefix,
  vault_prefix, payload_answer, decoded_answer, local_encrypt, local_decrypt,
}

is_blank-upper_byte : (b : ℕ) → is_blank (upper_byte b) ≡ is_blank b
is_blank-upper_byte b = ground arith

upper_byte_idem : (b : ℕ) → upper_byte (upper_byte b) ≡ upper_byte b
upper_byte_idem b = ground arith

trim_left-upper : (s : Text) → trim_left (map upper_byte s) ≡ map upper_byte (trim_left s)
unfolding trim_left
trim_left-upper [] = refl
trim_left-upper (b ∷ s) = ground (arith, is_blank-upper_byte b, trim_left-upper s)

keep-upper : (b : ℕ) (s : Text) → keep (upper_byte b) (map upper_byte s) ≡ map upper_byte (keep b s)
keep-upper b [] = ground (arith, is_blank-upper_byte b)
keep-upper b (c ∷ s) = refl

trim_right-upper : (s : Text) → trim_right (map upper_byte s) ≡ map upper_byte (trim_right s)
unfolding trim_right
trim_right-upper [] = refl
trim_right-upper (b ∷ s) =
    ap (keep (upper_byte b)) (trim_right-upper s) ∙ keep-upper b (trim_right s)

trim_right-keep : (b : ℕ) (s : Text) → trim_right s ≡ s → trim_right (keep b s) ≡ keep b s
unfolding trim_right
trim_right-keep b [] h = ground arith
trim_right-keep b (c ∷ s) h = ap (keep b) h

trim_right_idem : (s : Text) → trim_right (trim_right s) ≡ trim_right s
unfolding trim_right
trim_right_idem [] = refl
trim_right_idem (b ∷ s) = trim_right-keep b (trim_right s) (trim_right_idem s)

trim_left-keep : (b : ℕ) (s : Text) → is_blank b ≡ false → trim_left (keep b s) ≡ keep b s
unfolding trim_left
trim_left-keep b [] h = ground arith
trim_left-keep b (c ∷ s) h = ground arith

trimmed_idem : (s : Text) → trim_left (trim_right (trim_left s)) ≡ trim_right (trim_left s)
unfolding trim_left trim_right
trimmed_idem [] = refl
trimmed_idem (b ∷ s) = ground (arith, trimmed_idem s, trim_left-keep b (trim_right s))

map_idem : (s : Text) → map upper_byte (map upper_byte s) ≡ map upper_byte s
map_idem [] = refl
map_idem (b ∷ s) = cc (upper_byte_idem b, map_idem s)

-- Normalising an external identifier twice is normalising it once.
normalize_idem :
    (s : Text) → normalize_external_id (normalize_external_id s) ≡ normalize_external_id s
unfolding normalize_external_id
normalize_idem s =
    let t = trim_right (trim_left s) in
    ap (λ x. map upper_byte (trim_right x)) (trim_left-upper t)
    ∙ ap (λ x. map upper_byte x) (trim_right-upper (trim_left t))
    ∙ map_idem (trim_right (trim_left t))
    ∙ ap (λ x. map upper_byte (trim_right x)) (trimmed_idem s)
    ∙ ap (map upper_byte) (trim_right_idem (trim_left s))

-- Base64 text has no blanks.
abbrev pub HasNoBlanks : Text → Type 0
HasNoBlanks s = All (λ b. is_blank b ≡ false) s

trim_right_of_no_blanks : (s : Text) → HasNoBlanks s → trim_right s ≡ s
unfolding trim_right
trim_right_of_no_blanks [] h = refl
trim_right_of_no_blanks (b ∷ s) (nb, rest) = ap (keep b) (trim_right_of_no_blanks s rest) ∙ go s
  where
    go : (t : Text) → keep b t ≡ b ∷ t
    go [] = ground arith
    go (c ∷ t) = refl

no_blanks-append : (s t : Text) → HasNoBlanks s → HasNoBlanks t → HasNoBlanks (s ++ t)
no_blanks-append [] t h k = k
no_blanks-append (b ∷ s) t (nb, rest) k = (nb, no_blanks-append s t rest k)

pub strip_prefix-append : (p s : Text) → strip_prefix p (p ++ s) ≡ some s
strip_prefix-append [] s = refl
strip_prefix-append (b ∷ p) s = ground (arith, strip_prefix-append p s)

module _ (base64 : Base64) where
  -- If base64 decodes what it encodes, to a text without blanks, then the local client decrypts what
  -- it encrypted to the text it was given.
  pub local_decrypt-encrypt :
      (plaintext : Text)
      → base64.decode (base64.encode plaintext) ≡ some plaintext
      → HasNoBlanks (base64.encode plaintext)
      → local_decrypt base64 (local_encrypt base64 plaintext) ≡ ok plaintext
  unfolding local_decrypt local_encrypt trim_left
  local_decrypt-encrypt plaintext decoded no_blanks =
      let code = base64.encode plaintext in
      let trimmed : trim_right (vault_prefix ++ code) ≡ vault_prefix ++ code =
        trim_right_of_no_blanks (vault_prefix ++ code) (
          no_blanks-append vault_prefix code
            (refl, (refl, (refl, (refl, (refl, (refl, (refl, (refl, (refl, tt))))))))) no_blanks) in
      ap (λ raw. payload_answer base64 raw (strip_prefix vault_prefix raw)) trimmed
      ∙ ap (payload_answer base64 (vault_prefix ++ code)) (strip_prefix-append vault_prefix code)
      ∙ ap decoded_answer decoded
