-- ===== src/Common/Maps.antt =====
-- Go maps as association lists. `insert` replaces or appends, so a key occurs once in a map that
-- is built by `insert`; the order of the entries is one of the orders of Go's random iteration.
use mathlib.Core.Path.{◌≡◌, refl}
use mathlib.Core.Bool.{Bool, true, false, not, ◌&&◌}
use mathlib.Core.Option.{Option, none, some}
use mathlib.Core.List.{List, [], ◌∷◌}
use Prim.Native.Nat.{◌+◌, ◌≤◌}
use native.Mathlib.Omega.{arith}
use poc_dcs.Common.Tests.{Eq, ◌==◌, beq_refl, if◌then◌else◌}
use poc_dcs.Common.Lists.{length, elem}

abbrev pub Map {ℓ κ} : Type ℓ → Type κ → Type (ℓ ⊔ κ)
Map K V = List (K × V)

module _ {ℓ κ} {K : Type ℓ} {V : Type κ} where
  abbrev pub keys : Map K V → List K
  keys [] = []
  keys ((k, v) ∷ m) = k ∷ keys m

  pub length-keys : (m : Map K V) → length (keys m) ≡ length m
  length-keys [] = refl
  length-keys ((k, v) ∷ m) = omega (arith, length-keys m)

module _ {ℓ} {K : Type ℓ} ⦃e : Eq K⦄ where
  -- No key twice.
  abbrev pub distinct : List K → Bool
  distinct [] = true
  distinct (k ∷ ks) = not (elem k ks) && distinct ks

module _ {ℓ κ} {K : Type ℓ} {V : Type κ} ⦃e : Eq K⦄ where
  unfoldable pub lookup : K → Map K V → Option V
  lookup k [] = none
  lookup k ((j, v) ∷ m) = if j == k then some v else lookup k m

  unfoldable pub delete : K → Map K V → Map K V
  delete k [] = []
  delete k ((j, w) ∷ m) = if j == k then delete k m else (j, w) ∷ delete k m

  unfoldable pub insert : K → V → Map K V → Map K V
  insert key value [] = (key, value) ∷ []
  insert key value (entry ∷ rest) =
      if entry.0 == key then (key, value) ∷ rest else entry ∷ insert key value rest

  pub lookup-insert :
      (k j : K) (v : V) (m : Map K V)
      → lookup j (insert k v m) ≡ (if k == j then some v else lookup j m)
  unfolding lookup insert
  lookup-insert key j value [] = refl
  lookup-insert key j value ((i, w) ∷ rest) =
      ground
        (arith, lookup-insert key j value rest, e.beq_iff i j, e.beq_iff i key, e.beq_iff key j)

  pub lookup-insert_self : (k : K) (v : V) (m : Map K V) → lookup k (insert k v m) ≡ some v
  lookup-insert_self k v m = rw (lookup-insert, beq_refl k)

  pub lookup-delete :
      (k j : K) (m : Map K V) → lookup j (delete k m) ≡ (if k == j then none else lookup j m)
  unfolding lookup delete
  lookup-delete k j [] = ground arith
  lookup-delete k j ((i, w) ∷ m) =
      ground (arith, e.beq_iff k j, e.beq_iff i k, e.beq_iff i j, lookup-delete k j m)

  pub length-insert-le : (k : K) (v : V) (m : Map K V) → length (insert k v m) ≤ length m + 1
  unfolding insert
  length-insert-le k v [] = omega arith
  length-insert-le k v ((j, w) ∷ m) = ground (arith, length-insert-le k v m)

  pub length-delete-le : (k : K) (m : Map K V) → length (delete k m) ≤ length m
  unfolding delete
  length-delete-le k [] = omega arith
  length-delete-le k ((j, w) ∷ m) = ground (arith, length-delete-le k m)

  pub elem-keys-insert :
      (k j : K) (v : V) (m : Map K V)
      → elem j (keys (insert k v m)) ≡ (if k == j then true else elem j (keys m))
  unfolding insert
  elem-keys-insert k j v [] = ground arith
  elem-keys-insert k j v ((i, w) ∷ m) =
      ground (arith, e.beq_iff k j, e.beq_iff i k, e.beq_iff i j, elem-keys-insert k j v m)

  pub elem-keys-delete :
      (k j : K) (m : Map K V)
      → elem j (keys (delete k m)) ≡ (if k == j then false else elem j (keys m))
  unfolding delete
  elem-keys-delete k j [] = ground arith
  elem-keys-delete k j ((i, w) ∷ m) =
      ground (arith, e.beq_iff k j, e.beq_iff i k, e.beq_iff i j, elem-keys-delete k j m)

  pub distinct-insert :
      (k : K) (v : V) (m : Map K V)
      → distinct (keys m) ≡ true
      → distinct (keys (insert k v m)) ≡ true
  unfolding insert
  distinct-insert k v [] h = refl
  distinct-insert k v ((j, w) ∷ m) h =
      ground (arith, e.beq_iff j k, e.beq_iff k j, elem-keys-insert k j v m, distinct-insert k v m)

  pub distinct-delete :
      (k : K) (m : Map K V) → distinct (keys m) ≡ true → distinct (keys (delete k m)) ≡ true
  unfolding delete
  distinct-delete k [] h = refl
  distinct-delete k ((j, w) ∷ m) h =
      ground (arith, e.beq_iff j k, e.beq_iff k j, elem-keys-delete k j m, distinct-delete k m)
