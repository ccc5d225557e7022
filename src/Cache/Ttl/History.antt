-- ===== src/Cache/Ttl/History.antt =====
-- The cache refines an unbounded map: a hit returns what was last written under its key.
use poc_dcs.Common.{
  ℕ, ◌≤◌, ◌+◌, ◌%◌, ◌≡◌, refl, some, none, Option, ℤ, Eq, arith, length, Map, lookup, delete, List,
  [], ◌∷◌, Option-cases, inl, inr, lookup-insert, lookup-delete, if◌then◌else◌, ◌==◌,
}
use poc_dcs.Common.{◌∙◌, ltb, lookup-insert_self}
use poc_dcs.Cache.Ttl.{
  Ttl, Entry, new, get, set, clear, stamped, ttl_or, second, evict, key_at, make_room,
}

-- The calls of the three methods, with the time and the victim of each.
pub data Call {ℓ κ} (K : Type ℓ) (V : Type κ) : Type (ℓ ⊔ κ) where
  read : K → (now : ℕ) → Call K V
  write : K → V → (ttl : ℤ) → (now victim : ℕ) → Call K V
  wipe : Call K V

module _ {ℓ κ} {K : Type ℓ} {V : Type κ} ⦃e : Eq K⦄ where
  unfoldable pub apply : Ttl K V → Call K V → Ttl K V
  apply t (read k now) = (get k now t).1
  apply t (write k v ttl now victim) = set k v ttl now victim t
  apply t wipe = clear t

  unfoldable pub run : Ttl K V → List (Call K V) → Ttl K V
  run t [] = t
  run t (c ∷ cs) = run (apply t c) cs

  -- The unbounded map that is the specification: reads and evictions do not change it.
  abbrev pub note : ℕ → (K → Option (Entry V)) → Call K V → K → Option (Entry V)
  note d latest (read k now) j = latest j
  note d latest (write k v ttl now victim) j =
      if k == j then some (record { value = v; expires_at = now + ttl_or d ttl }) else latest j
  note d latest wipe j = none

  abbrev pub latest_from : ℕ → (K → Option (Entry V)) → List (Call K V) → K → Option (Entry V)
  latest_from d latest [] = latest
  latest_from d latest (c ∷ cs) = latest_from d (note d latest c) cs

  -- Every stored entry is the latest of its key.
  record Tracks (d : ℕ) (latest : K → Option (Entry V)) (t : Ttl K V) : Type (ℓ ⊔ κ) where
    same_ttl : t.default_ttl ≡ d
    agrees : (k : K) (w : Entry V) → lookup k t.store ≡ some w → latest k ≡ some w

  lookup-evict :
      (n : ℕ) (m : Map K (Entry V)) (j : K) (w : Entry V)
      → lookup j (evict n m) ≡ some w
      → lookup j m ≡ some w
  unfolding evict
  lookup-evict n m j w h = elim (Option-cases (key_at (n % length m) m)) [
    | inl no_key ↦ rw (no_key, evict) at h
    | inr (k, at) ↦ ground (arith, lookup-delete k j m)
  ]

  lookup-make_room :
      (n : ℕ) (t : Ttl K V) (j : K) (w : Entry V)
      → lookup j (make_room n t) ≡ some w
      → lookup j t.store ≡ some w
  unfolding make_room
  lookup-make_room n t j w h = ground (arith, lookup-evict n t.store j w)

  pub lookup-get :
      (k : K) (now : ℕ) (t : Ttl K V) (j : K) (w : Entry V)
      → lookup j (get k now t).1.store ≡ some w
      → lookup j t.store ≡ some w
  unfolding get
  lookup-get k now t j w h = ground (arith, lookup-delete k j t.store)

  pub default_ttl-get :
      (k : K) (now : ℕ) (t : Ttl K V) → (get k now t).1.default_ttl ≡ t.default_ttl
  unfolding get
  default_ttl-get k now t = ground arith

  pub lookup-set :
      (k : K) (v : V) (ttl : ℤ) (now n : ℕ) (t : Ttl K V) (j : K) (w : Entry V)
      → lookup j (set k v ttl now n t).store ≡ some w
      → (if k == j then some (stamped v ttl now t) else lookup j t.store) ≡ some w
  unfolding set
  lookup-set k v ttl now n t j w h =
      ground
        (arith, lookup-insert k j (stamped v ttl now t) (make_room n t), lookup-make_room n t j w)

  apply-Tracks :
      (d : ℕ) (latest : K → Option (Entry V)) (t : Ttl K V) (c : Call K V)
      → Tracks d latest t
      → Tracks d (note d latest c) (apply t c)
  unfolding apply set clear lookup
  apply-Tracks d latest t (read k now) h = record {
    same_ttl = default_ttl-get k now t ∙ h.same_ttl;
    agrees = λ j w p. h.agrees j w (lookup-get k now t j w p);
  }
  apply-Tracks d latest t (write k v ttl now victim) h = record {
    same_ttl = h.same_ttl;
    agrees =
        λ j w p. ground (arith, h.same_ttl, lookup-set k v ttl now victim t j w p, h.agrees j w);
  }
  apply-Tracks d latest t wipe h = record { same_ttl = h.same_ttl; agrees = λ k w p. cc }

  run-Tracks :
      (d : ℕ) (latest : K → Option (Entry V)) (t : Ttl K V) (cs : List (Call K V))
      → Tracks d latest t
      → Tracks d (latest_from d latest cs) (run t cs)
  unfolding run
  run-Tracks d latest t [] h = h
  run-Tracks d latest t (c ∷ cs) h =
      run-Tracks d (note d latest c) (apply t c) cs (apply-Tracks d latest t c h)

  new-Tracks : (n d : ℤ) → Tracks (ttl_or second d) (λ k. none) (new n d)
  unfolding new lookup
  new-Tracks n d = record { same_ttl = refl; agrees = λ k w p. cc }

  -- A hit of `get` returns a value that was stored and is not past its time.
  pub get-hit :
      (k : K) (now : ℕ) (t : Ttl K V) (v : V)
      → (get k now t).0 ≡ some v
      → (w : Entry V) × (lookup k t.store ≡ some w) × (w.value ≡ v) × (now ≤ w.expires_at)
  unfolding get
  get-hit k now t v h = elim (Option-cases (lookup k t.store)) [
    | inl missing ↦ absurd (ground arith)
    | inr (w, found) ↦ (w, found, ground arith, ground arith)
  ]

  -- Whatever was called before on a new cache, a hit of `get` at `now` returns the value of the
  -- latest write under that key since the last clear, and `now` is not past its expiry time.
  pub hit_is_latest :
      (size ttl : ℤ) (calls : List (Call K V)) (k : K) (now : ℕ) (v : V)
      → (get k now (run (new size ttl) calls)).0 ≡ some v
      → (w : Entry V) × (latest_from (ttl_or second ttl) (λ j. none) calls k ≡ some w)
        × (w.value ≡ v)
        × (now ≤ w.expires_at)
  hit_is_latest size ttl calls k now v h =
      let (w, found, value, fresh) = get-hit k now (run (new size ttl) calls) v h in
      let tracks = run-Tracks _ _ _ calls (new-Tracks size ttl) in
      (w, tracks.agrees k w found, value, fresh)

  get_of_lookup :
      (k : K) (now : ℕ) (t : Ttl K V) (w : Entry V)
      → lookup k t.store ≡ some w
      → get k now t ≡ (
          if ltb w.expires_at now
          then (none, record t { store = delete k t.store })
          else (some w.value, t))
  unfolding get
  get_of_lookup k now t w h = rw (h, get)

  lookup-set_self :
      (k : K) (v : V) (ttl : ℤ) (now n : ℕ) (t : Ttl K V)
      → lookup k (set k v ttl now n t).store ≡ some (stamped v ttl now t)
  unfolding set
  lookup-set_self k v ttl now n t = lookup-insert_self k (stamped v ttl now t) (make_room n t)

  -- An entry written at `written` is found at `now` exactly until it expires, whichever entry was
  -- evicted for it; past its time it is removed.
  pub get-set_self :
      (k : K) (v : V) (ttl : ℤ) (written n now : ℕ) (t : Ttl K V)
      → get k now (set k v ttl written n t) ≡ (
          if ltb (written + ttl_or t.default_ttl ttl) now
          then (
            none,
            record (set k v ttl written n t) { store = delete k (set k v ttl written n t).store },
          )
          else (some v, set k v ttl written n t))
  get-set_self k v ttl written n now t =
      get_of_lookup k now (set k v ttl written n t) (stamped v ttl written t)
        (lookup-set_self k v ttl written n t)
