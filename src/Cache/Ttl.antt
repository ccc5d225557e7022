-- ===== src/Cache/Ttl.antt =====
-- internal/dcs/cache/ttl.go: a bounded map whose entries expire. Times and durations count
-- nanoseconds. `time.Now()` is the argument `now`; the entry that Go's random iteration meets first
-- is the argument `victim`, a position modulo the size. The lock makes each method atomic.
pub mod Invariant
pub mod History
pub mod Holding
use poc_dcs.Common.{
  ℕ, suc, zero, ◌+◌, ◌%◌, Option, none, some, List, [], ◌∷◌, Bool, ℤ, pos, negsuc, Eq, Map, keys,
  lookup, insert, delete, length, ltb, leb, if◌then◌else◌,
}

pub record Entry {ℓ} (V : Type ℓ) : Type ℓ where
  pub value : V
  pub expires_at : ℕ

pub record Ttl {ℓ κ} (K : Type ℓ) (V : Type κ) : Type (ℓ ⊔ κ) where
  pub store : Map K (Entry V)
  pub max_entries : ℕ
  pub default_ttl : ℕ

-- `if maxEntries < 1 { maxEntries = 1 }`
abbrev clamp_entries : ℤ → ℕ
clamp_entries (pos zero) = 1
clamp_entries (pos (suc n)) = suc n
clamp_entries (negsuc n) = 1

-- `if ttl <= 0 { ttl = fallback }`
abbrev pub ttl_or : ℕ → ℤ → ℕ
ttl_or fallback (pos zero) = fallback
ttl_or fallback (pos (suc n)) = suc n
ttl_or fallback (negsuc n) = fallback

abbrev pub second : ℕ
second = 1_000_000_000

module _ {ℓ κ} {K : Type ℓ} {V : Type κ} where
  unfoldable pub new : ℤ → ℤ → Ttl K V
  new max_entries default_ttl = record {
    store = [];
    max_entries = clamp_entries max_entries;
    default_ttl = ttl_or second default_ttl;
  }

  unfoldable pub clear : Ttl K V → Ttl K V
  clear t = record t { store = [] }

module _ {ℓ κ} {K : Type ℓ} {W : Type κ} where
  unfoldable pub key_at : ℕ → Map K W → Option K
  key_at i [] = none
  key_at zero ((k, v) ∷ m) = some k
  key_at (suc i) ((k, v) ∷ m) = key_at i m

module _ {ℓ κ} {K : Type ℓ} {W : Type κ} ⦃e : Eq K⦄ where
  -- `for k := range t.store { delete(t.store, k); break }`
  unfoldable pub evict : ℕ → Map K W → Map K W
  evict victim m = elim (key_at (victim % length m) m) [ none ↦ m | some k ↦ delete k m ]

module _ {ℓ κ} {K : Type ℓ} {V : Type κ} ⦃e : Eq K⦄ where
  unfoldable pub get : K → ℕ → Ttl K V → Option V × Ttl K V
  get k now t = elim (lookup k t.store) [
    | none ↦ (none, t)
    | some item ↦
        if ltb item.expires_at now
        then (none, record t { store = delete k t.store })
        else (some item.value, t)
  ]

  unfoldable pub make_room : ℕ → Ttl K V → Map K (Entry V)
  unfolding evict key_at
  make_room victim t = if leb t.max_entries (length t.store) then evict victim t.store else t.store

  -- The entry that `set` writes.
  abbrev pub stamped : V → ℤ → ℕ → Ttl K V → Entry V
  stamped v ttl now t = record { value = v; expires_at = now + ttl_or t.default_ttl ttl }

  unfoldable pub set : K → V → ℤ → ℕ → ℕ → Ttl K V → Ttl K V
  unfolding make_room
  set k v ttl now victim t = record t {
    store = insert k (stamped v ttl now t) (make_room victim t);
  }
