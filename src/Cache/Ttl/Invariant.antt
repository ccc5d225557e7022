-- ===== src/Cache/Ttl/Invariant.antt =====
-- The bound on the size, and that a key occurs once.
use poc_dcs.Common.{
  ℕ, ◌<◌, ◌≤◌, ◌+◌, ◌%◌, ◌≡◌, refl, true, some, ℤ, pos, zero, suc, Eq, arith, length, distinct,
  keys, elem, Map, delete, [], ◌∷◌, Option-cases, inl, inr, length-insert-le, length-delete-le,
  distinct-insert, distinct-delete,
}
use poc_dcs.Cache.Ttl.{Ttl, new, get, set, clear, stamped, evict, key_at, make_room}

pub record IsValid {ℓ κ} {K : Type ℓ} {V : Type κ} ⦃e : Eq K⦄ (t : Ttl K V) : Type 0 where
  pub room : 1 ≤ t.max_entries
  pub within : length t.store ≤ t.max_entries
  pub unique : distinct (keys t.store) ≡ true
  pub lasts : 1 ≤ t.default_ttl

module _ {ℓ κ} {K : Type ℓ} {W : Type κ} where
  key_at-some : (i : ℕ) (m : Map K W) → i < length m → (k : K) × (key_at i m ≡ some k)
  unfolding key_at
  key_at-some i [] h = absurd (omega arith)
  key_at-some zero ((k, v) ∷ m) h = (k, refl)
  key_at-some (suc i) ((k, v) ∷ m) h = key_at-some i m (omega arith)

module _ {ℓ κ} {K : Type ℓ} {W : Type κ} ⦃e : Eq K⦄ where
  elem-key_at : (i : ℕ) (m : Map K W) (k : K) → key_at i m ≡ some k → elem k (keys m) ≡ true
  unfolding key_at
  elem-key_at i [] k h = cc
  elem-key_at zero ((j, v) ∷ m) k h = ground (arith, e.beq_iff j k)
  elem-key_at (suc i) ((j, v) ∷ m) k h = ground (arith, elem-key_at i m k h)

  length-delete-lt :
      (k : K) (m : Map K W) → elem k (keys m) ≡ true → length (delete k m) + 1 ≤ length m
  unfolding delete
  length-delete-lt k [] h = cc
  length-delete-lt k ((j, w) ∷ m) h = ground (arith, length-delete-lt k m, length-delete-le k m)

  evict_of_key_at :
      (n : ℕ) (m : Map K W) (k : K) → key_at (n % length m) m ≡ some k → evict n m ≡ delete k m
  unfolding evict
  evict_of_key_at n m k at = ground arith

  length-evict : (n : ℕ) (m : Map K W) → 1 ≤ length m → length (evict n m) + 1 ≤ length m
  length-evict n m h =
      let (k, at) = key_at-some (n % length m) m (omega arith) in
      rw (evict_of_key_at n m k at) (length-delete-lt k m (elem-key_at (n % length m) m k at))

  distinct-evict :
      (n : ℕ) (m : Map K W) → distinct (keys m) ≡ true → distinct (keys (evict n m)) ≡ true
  unfolding evict
  distinct-evict n m h = elim (Option-cases (key_at (n % length m) m)) [
    | inl no_key ↦ rw (no_key, evict) h
    | inr (k, at) ↦ rw (evict_of_key_at n m k at) (distinct-delete k m h)
  ]

module _ {ℓ κ} {K : Type ℓ} {V : Type κ} ⦃e : Eq K⦄ where
  pub new-IsValid : (n d : ℤ) → IsValid (new {K = K} {V = V} n d)
  unfolding new
  new-IsValid (pos zero) d = ground arith
  new-IsValid _ d = ground arith

  pub get-IsValid : (k : K) (now : ℕ) (t : Ttl K V) → IsValid t → IsValid (get k now t).1
  unfolding get
  get-IsValid k now t v =
      ground (arith, length-delete-le k t.store, distinct-delete k t.store v.unique)

  -- A write keeps a cache within its size, with at least one entry allowed, with one entry for each
  -- key and with a default lifetime of at least one nanosecond.
  pub set-IsValid :
      (k : K) (v : V) (ttl : ℤ) (now n : ℕ) (t : Ttl K V)
      → IsValid t
      → IsValid (set k v ttl now n t)
  unfolding set
  set-IsValid k v ttl now n t h = record {
    room = h.room;
    within =
        ground
          (arith, length-evict n t.store, length-insert-le k (stamped v ttl now t) (make_room n t));
    unique = distinct-insert k _ _ (ground (arith, distinct-evict n t.store h.unique));
    lasts = h.lasts;
  }

  pub clear-IsValid : (t : Ttl K V) → IsValid t → IsValid (clear t)
  unfolding clear
  clear-IsValid t h = ground arith
