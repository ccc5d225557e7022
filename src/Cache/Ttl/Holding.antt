-- ===== src/Cache/Ttl/Holding.antt =====
-- What holds of every stored value holds of every hit.
use poc_dcs.Common.{
  ℕ, ◌≡◌, ◌==◌, Eq, Option, some, ℤ, lookup, Bool-cases, inl, inr, subst, if◌then◌else◌,
}
use poc_dcs.Cache.Ttl.{Ttl, Entry, get, set, stamped}
use poc_dcs.Cache.Ttl.History.{lookup-get, lookup-set, get-hit}

module _ {ℓ κ μ} {K : Type ℓ} {V : Type κ} ⦃e : Eq K⦄ (Q : K → V → Type μ) where
  abbrev pub Holds : Ttl K V → Type (ℓ ⊔ κ ⊔ μ)
  Holds t = (k : K) (item : Entry V) → lookup k t.store ≡ some item → Q k item.value

  pub Holds-get : (k : K) (now : ℕ) (t : Ttl K V) → Holds t → Holds (get k now t).1
  Holds-get k now t h j item found = h j item (lookup-get k now t j item found)

  Holds-write :
      (k j : K) (item written : Entry V) (old : Option (Entry V))
      → (old ≡ some item → Q j item.value)
      → Q k written.value
      → (if k == j then some written else old) ≡ some item
      → Q j item.value
  Holds-write k j item written old before now h = elim (Bool-cases (k == j)) [
    | inl same ↦
        let one = (e.beq_iff k j).0 same in
        let put : some written ≡ some item = rw same at h in
        let same_item : written ≡ item = cc in
        subst (λ x. Q x item.value) one (subst (λ i. Q k i.value) same_item now)
    | inr differs ↦ before (rw differs at h)
  ]

  pub Holds-set :
      (k : K) (v : V) (ttl : ℤ) (now n : ℕ) (t : Ttl K V)
      → Q k v
      → Holds t
      → Holds (set k v ttl now n t)
  Holds-set k v ttl now n t q h j item found =
      Holds-write k j item (stamped v ttl now t) (lookup j t.store) (h j item) q
        (lookup-set k v ttl now n t j item found)

  pub hit-Holds :
      (k : K) (now : ℕ) (t : Ttl K V) (v : V) → Holds t → (get k now t).0 ≡ some v → Q k v
  hit-Holds k now t v h hit =
      let (item, found, value, fresh) = get-hit k now t v hit in subst (Q k) value (h k item found)
