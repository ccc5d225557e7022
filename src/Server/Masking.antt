-- ===== src/Server/Masking.antt =====
-- What the log shows of the URL of the database, and when a process does not start.
use poc_dcs.Common.{
  Bool-cases, ◌==◌, Text, text_eq, bytes, ℕ, zero, suc, ◌≤◌, ◌<◌, ◌≡◌, ◌≢◌, refl, ap, ◌∙◌, Option,
  none, some, [], ◌∷◌, ◌++◌, length, arith, inl, inr,
}
use mathlib.Core.List.{append_assoc}
use poc_dcs.Server.{first_bytes, mask_db_url, setup_database}

first_bytes-append : (s rest : Text) → first_bytes (length s) (s ++ rest) ≡ some s
unfolding first_bytes
first_bytes-append [] rest = refl
first_bytes-append (b ∷ s) rest = rw (first_bytes-append s rest, first_bytes) refl

first_bytes_short : (n : ℕ) (s : Text) → length s < n → first_bytes n s ≡ none
unfolding first_bytes
first_bytes_short zero s h = elim h [ ]
first_bytes_short (suc n) [] h = refl
first_bytes_short (suc n) (b ∷ s) h = rw (first_bytes_short n s (omega arith), first_bytes) refl

first_bytes-ok :
    (n : ℕ) (s : Text)
    → n ≤ length s
    → (t rest : Text) × (first_bytes n s ≡ some t) × (s ≡ t ++ rest) × (length t ≡ n)
unfolding first_bytes
first_bytes-ok zero s h = ([], s, refl, refl, refl)
first_bytes-ok (suc n) [] h = elim h [ ]
first_bytes-ok (suc n) (b ∷ s) h =
    let (t, rest, e, cut, l) = first_bytes-ok n s (omega arith) in
    (b ∷ t, rest, rw (e, first_bytes) refl, ap (λ r. b ∷ r) cut, omega (arith, l))

-- Of two beginnings of a text, the longer begins with the shorter.
longer : (s r t q : Text) → s ++ r ≡ t ++ q → length s ≤ length t → (m : Text) × (t ≡ s ++ m)
longer [] r t q e h = (t, refl)
longer (a ∷ s) r [] q e h = elim h [ ]
longer (a ∷ s) r (b ∷ t) q e h =
    let (m, same) = longer s r t q (cc e) (omega arith) in (m, cc (e, same))

-- A password that stands within the first twenty bytes of the URL of the database is logged in clear,
-- with what stands before it, where the URL has twenty bytes or more.
pub mask_db_url_reveals :
    (before password after : Text)
    → 20 ≤ length (before ++ (password ++ after))
    → length (before ++ password) ≤ 20
    → (end : Text) × (mask_db_url (before ++ (password ++ after))
        ≡ some ((before ++ password) ++ end))
unfolding mask_db_url
mask_db_url_reveals before password after long within =
    let url = before ++ (password ++ after) in
    let (t, rest, got, cut, l) = first_bytes-ok 20 url long in
    let (m, same) =
      longer (before ++ password) after t rest (append_assoc before password after ∙ cut)
        (omega (arith, l)) in
    (
      m ++ bytes "*** (password masked)",
      rw (got, same) (ap some (append_assoc (before ++ password) m _)),
    )

-- On a URL that is shorter than that and not empty the process does not start, whatever the
-- connection would give: cutting the URL panics.
setup_database_short :
    {P : Type 0} (connect : Text → Option P) (url : Text)
    → length url < 20
    → url ≢ []
    → setup_database connect url ≡ none
unfolding mask_db_url setup_database
setup_database_short connect url short given = elim (Bool-cases (url == [])) [
  | inl empty ↦ absurd (given ((text_eq.beq_iff url []).0 empty))
  | inr full ↦ rw (full, first_bytes_short 20 url short) refl
]
