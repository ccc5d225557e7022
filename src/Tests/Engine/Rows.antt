-- ===== src/Tests/Engine/Rows.antt =====
-- The rows that meet conditions, the first of them, and what is projected from them.
use poc_dcs.Common.{
  ℕ, zero, suc, pos, ◌≡◌, refl, ap, sym, subst, inl, inr, arith, Option, none, some, List, [], ◌∷◌,
  map, In, string_eq, length, ◌≤◌,
}
use poc_dcs.Repo.Postgres.Sql.{Datum, int, Item, Test}
use poc_dcs.Repo.Postgres.Meaning.{Row, project, arg, Matches}
use poc_dcs.Tests.Engine.{uuids, dec_matches, if_yes, chosen, take, up_to, limited}

pub chosen_sound :
    (args : List Datum) (tests : List Test) (rows : List Row) (row : Row)
    → In row (chosen args tests rows)
    → In row rows × Matches uuids args row tests
unfolding chosen if_yes
chosen_sound args tests [] row h = elim h [ ]
chosen_sound args tests (r ∷ rows) row h =
    go (dec_matches args r tests) h (chosen_sound args tests rows row)
  where
    go :
        (d : Dec (Matches uuids args r tests))
        → In row (if_yes d (r ∷ chosen args tests rows) (chosen args tests rows))
        → (In row (chosen args tests rows) → In row rows × Matches uuids args row tests)
        → In row (r ∷ rows) × Matches uuids args row tests
    go (yes m) (inl e) ih = (inl e, subst (λ x. Matches uuids args x tests) e m)
    go (yes m) (inr later) ih = let (at, m') = ih later in (inr at, m')
    go (no n) later ih = let (at, m') = ih later in (inr at, m')

pub chosen_complete :
    (args : List Datum) (tests : List Test) (rows : List Row) (row : Row)
    → In row rows
    → Matches uuids args row tests
    → In row (chosen args tests rows)
unfolding chosen if_yes
chosen_complete args tests [] row h m = elim h [ ]
chosen_complete args tests (r ∷ rows) row (inl e) m = go (dec_matches args r tests)
  where
    go :
        (d : Dec (Matches uuids args r tests))
        → In row (if_yes d (r ∷ chosen args tests rows) (chosen args tests rows))
    go (yes m') = inl e
    go (no n) = elim (n (subst (λ x. Matches uuids args x tests) (sym e) m)) [ ]
chosen_complete args tests (r ∷ rows) row (inr later) m =
    go (dec_matches args r tests) (chosen_complete args tests rows row later m)
  where
    go :
        (d : Dec (Matches uuids args r tests))
        → In row (chosen args tests rows)
        → In row (if_yes d (r ∷ chosen args tests rows) (chosen args tests rows))
    go (yes m') at = inr at
    go (no n) at = at

take-In : (n : ℕ) (rows : List Row) (row : Row) → In row (take n rows) → In row rows
unfolding take
take-In zero rows row h = elim h [ ]
take-In (suc n) [] row h = elim h [ ]
take-In (suc n) (r ∷ rows) row (inl e) = inl e
take-In (suc n) (r ∷ rows) row (inr h) = inr (take-In n rows row h)

pub length-take-le : (n : ℕ) (rows : List Row) → length (take n rows) ≤ n
unfolding take
length-take-le zero rows = omega arith
length-take-le (suc n) [] = omega arith
length-take-le (suc n) (r ∷ rows) = omega (arith, length-take-le n rows)

up_to-In : (v : Datum) (rows : List Row) (row : Row) → In row (up_to v rows) → In row rows
unfolding up_to
up_to-In (int (pos k)) rows row h = take-In k rows row h
up_to-In _ rows row h = elim h [ ]

pub limited-In :
    (limit : Option ℕ) (args : List Datum) (rows : List Row) (row : Row)
    → In row (limited limit args rows)
    → In row rows
unfolding limited
limited-In none args rows row h = h
limited-In (some n) args rows row h = up_to-In (arg n args) rows row h

-- A projection among the projections is that of a row.
pub map-In :
    (items : List Item) (rows : List Row) (answer : List Datum)
    → In answer (map (project items) rows)
    → (row : Row) × In row rows × (answer ≡ project items row)
map-In items [] answer h = elim h [ ]
map-In items (r ∷ rows) answer (inl e) = (r, inl refl, sym e)
map-In items (r ∷ rows) answer (inr h) =
    let (row, at, e) = map-In items rows answer h in (row, inr at, e)

pub In-map :
    (items : List Item) (rows : List Row) (row : Row)
    → In row rows
    → In (project items row) (map (project items) rows)
In-map items [] row h = elim h [ ]
In-map items (r ∷ rows) row (inl e) = inl (ap (project items) e)
In-map items (r ∷ rows) row (inr h) = inr (In-map items rows row h)

pub length-map :
    (items : List Item) (rows : List Row) → length (map (project items) rows) ≡ length rows
length-map items [] = refl
length-map items (r ∷ rows) = ap suc (length-map items rows)
