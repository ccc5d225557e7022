-- ===== src/Repo/Postgres/Sql/Rows.antt =====
-- What the loop over the rows of an answer returns.
use poc_dcs.Common.{
  ◌≡◌, refl, sym, ap, ◌∙◌, subst, inl, inr, List, [], ◌∷◌, Result, ok, err, In, ◌>>=◌, arith,
  length,
}
use poc_dcs.Repo.Postgres.Sql.{Datum, scan_rows}

-- A chain that succeeds has a first step that does, and its second step succeeds on what that gives.
bind-eq-ok :
    {A : Type 0} {B : Type 0} {y : B} (first : Result A) (next : A → Result B)
    → (first >>= next) ≡ ok y
    → (x : A) × (first ≡ ok x) × (next x ≡ ok y)
bind-eq-ok (ok x) next succeeds = (x, refl, succeeds)
bind-eq-ok (err e) next succeeds = cc

module _ {A : Type 0} (scan : List Datum → Result A) where
  scan_rows-cons :
      (row : List Datum) (rows : List (List Datum)) (all : List A)
      → scan_rows scan (row ∷ rows) ≡ ok all
      → (a : A) × (rest : List A) × (scan row ≡ ok a)
        × (scan_rows scan rows ≡ ok rest)
        × (all ≡ a ∷ rest)
  unfolding scan_rows
  scan_rows-cons row rows all h =
      let (a, got, h') =
        bind-eq-ok (scan row) (λ a. scan_rows scan rows >>= λ rest. ok (a ∷ rest)) h in
      let (rest, got', h'') = bind-eq-ok (scan_rows scan rows) (λ rest. ok (a ∷ rest)) h' in
      (a, rest, got, got', cc h'')

  nil-eq : (all : List A) → scan_rows scan [] ≡ ok all → [] ≡ all
  unfolding scan_rows
  nil-eq all h = cc h

  -- What is returned was scanned from a row, and every row was scanned.
  pub scan_rows_sound :
      (rows : List (List Datum)) (all : List A) (a : A)
      → scan_rows scan rows ≡ ok all
      → In a all
      → (row : List Datum) × In row rows × (scan row ≡ ok a)
  scan_rows_sound [] all a h at = let none' : In a [] = rw (← nil-eq all h) at at in elim none' [ ]
  scan_rows_sound (row ∷ rows) all a h at =
      let (b, rest, got, got', e) = scan_rows-cons row rows all h in
      go b rest got (subst (In a) e at) (scan_rows_sound rows rest a got')
    where
      go :
          (b : A) (rest : List A)
          → scan row ≡ ok b
          → In a (b ∷ rest)
          → (In a rest → (r : List Datum) × In r rows × (scan r ≡ ok a))
          → (r : List Datum) × In r (row ∷ rows) × (scan r ≡ ok a)
      go b rest got (inl e) ih = (row, inl refl, got ∙ ap ok e)
      go b rest got (inr later) ih = let (r, at', s) = ih later in (r, inr at', s)

  pub scan_rows_complete :
      (rows : List (List Datum)) (all : List A) (row : List Datum)
      → scan_rows scan rows ≡ ok all
      → In row rows
      → (a : A) × In a all × (scan row ≡ ok a)
  scan_rows_complete [] all row h at = elim at [ ]
  scan_rows_complete (first ∷ rows) all row h at =
      let (b, rest, got, got', e) = scan_rows-cons first rows all h in
      subst (λ l. (a : A) × In a l × (scan row ≡ ok a)) (sym e)
        (go b rest got at (scan_rows_complete rows rest row got'))
    where
      go :
          (b : A) (rest : List A)
          → scan first ≡ ok b
          → In row (first ∷ rows)
          → (In row rows → (a : A) × In a rest × (scan row ≡ ok a))
          → (a : A) × In a (b ∷ rest) × (scan row ≡ ok a)
      go b rest got (inl e) ih = (b, inl refl, ap scan (sym e) ∙ got)
      go b rest got (inr later) ih = let (a, at', s) = ih later in (a, inr at', s)

  pub length-scan_rows :
      (rows : List (List Datum)) (all : List A)
      → scan_rows scan rows ≡ ok all
      → length all ≡ length rows
  length-scan_rows [] all h = ap length (sym (nil-eq all h))
  length-scan_rows (row ∷ rows) all h =
      let (b, rest, got, got', e) = scan_rows-cons row rows all h in
      omega (arith, ap length e, length-scan_rows rows rest got')
