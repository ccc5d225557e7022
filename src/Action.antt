-- ===== src/Action.antt =====
-- Go functions that read and change shared state and may fail: the state is kept beside the error.
pub mod Leaves
pub mod Ensures
pub mod Answers
use poc_dcs.Common.{
  Result, ok, err, Error, ◌≡◌, refl, ◌≢◌, Bool, true, false, not, if◌then◌else◌, ◌⊎◌, inl, inr,
}

abbrev pub Act {ℓ κ} : Type ℓ → Type κ → Type (ℓ ⊔ κ)
Act S A = S → Result A × S

module _ {ℓ κ} {S : Type ℓ} {A : Type κ} where
  abbrev pub pure : A → Act S A
  pure a s = (ok a, s)

  abbrev pub raise : Error → Act S A
  raise e s = (err e, s)

module _ {ℓ κ μ} {S : Type ℓ} {A : Type κ} {B : Type μ} where
  abbrev pub continue : Result A → (A → Act S B) → Act S B
  continue (ok a) f s = f a s
  continue (err e) f s = (err e, s)

  infixl 5 ◌>>=◌
  abbrev pub ◌>>=◌ : Act S A → (A → Act S B) → Act S B
  ◌>>=◌ m f s = let (r, s') = m s in continue r f s'

abbrev pub map_result {ℓ κ} : {A : Type ℓ} {B : Type κ} → (A → B) → Result A → Result B
map_result f (ok a) = ok (f a)
map_result f (err e) = err e

pub map_result-eq-ok {ℓ κ} :
    {A : Type ℓ} {B : Type κ} (f : A → B) (r : Result A) {b : B}
    → map_result f r ≡ ok b
    → (a : A) × (r ≡ ok a) × (f a ≡ b)
map_result-eq-ok f (ok a) h = (a, refl, cc)
map_result-eq-ok f (err e) h = cc

pub Result-cases {ℓ} :
    {A : Type ℓ} (r : Result A) → ((e : Error) × (r ≡ err e)) ⊎ ((a : A) × (r ≡ ok a))
Result-cases (ok a) = inr (a, refl)
Result-cases (err e) = inl (e, refl)

-- What an action returns when it ends by a pure step.
module _ {ℓ κ μ} {S : Type ℓ} {A : Type κ} {B : Type μ} where
  pub result-bind-pure :
      (m : Act S A) (f : A → B) (s : S) → ((m >>= λ a. pure (f a)) s).0 ≡ map_result f (m s).0
  result-bind-pure m f s = go (m s).0 (m s).1
    where
      go : (r : Result A) (s' : S) → (continue r (λ a. pure (f a)) s').0 ≡ map_result f r
      go (ok a) s' = refl
      go (err e) s' = refl

module _ {ℓ κ μ} {S : Type ℓ} {A : Type κ} {B : Type μ} where
  pub state-bind-pure : (m : Act S A) (f : A → B) (s : S) → ((m >>= λ a. pure (f a)) s).1 ≡ (m s).1
  state-bind-pure m f s = go (m s).0 (m s).1
    where
      go : (r : Result A) (s' : S) → (continue r (λ a. pure (f a)) s').1 ≡ s'
      go (ok a) s' = refl
      go (err e) s' = refl

  -- Inversion of a successful bind.
  pub bind-ok :
      (m : Act S A) (f : A → Act S B) (s : S) {b : B}
      → ((m >>= f) s).0 ≡ ok b
      → (a : A) × (s' : S) × ((m s).0 ≡ ok a) × ((f a s').0 ≡ ok b)
  bind-ok m f s {b} h = go (m s).0 (m s).1 refl h
    where
      go :
          (r : Result A) (s' : S)
          → (m s).0 ≡ r
          → (continue r f s').0 ≡ ok b
          → (a : A) × (s'' : S) × ((m s).0 ≡ ok a) × ((f a s'').0 ≡ ok b)
      go (ok a) s' e k = (a, s', e, k)
      go (err x) s' e k = cc

  -- The same, with the state in which the second part starts.
  pub bind-ok_at :
      (m : Act S A) (f : A → Act S B) (s : S) {b : B}
      → ((m >>= f) s).0 ≡ ok b
      → (a : A) × ((m s).0 ≡ ok a) × ((f a (m s).1).0 ≡ ok b)
  bind-ok_at m f s {b} h = go (m s).0 refl h
    where
      go :
          (r : Result A)
          → (m s).0 ≡ r
          → (continue r f (m s).1).0 ≡ ok b
          → (a : A) × ((m s).0 ≡ ok a) × ((f a (m s).1).0 ≡ ok b)
      go (ok a) e k = (a, e, k)
      go (err x) e k = cc

  -- The state after a bind, if whatever happens in between keeps a property.
  pub bind-keeps {π} :
      (P : S → Type π) (m : Act S A) (f : A → Act S B) (s : S)
      → P (m s).1
      → ((a : A) → (m s).0 ≡ ok a → P (f a (m s).1).1)
      → P ((m >>= f) s).1
  bind-keeps P m f s h k = go (m s).0 refl
    where
      go : (r : Result A) → (m s).0 ≡ r → P (continue r f (m s).1).1
      go (ok a) e = k a e
      go (err x) e = h

-- Where an action that only fails stands for a test that does not hold.
module _ {ℓ κ} {S : Type ℓ} {A : Type κ} where
  pub unless-ok :
      (b : Bool) (m n : Act S A) (s : S) {a : A}
      → (m s).0 ≢ ok a
      → ((if not b then m else n) s).0 ≡ ok a
      → (b ≡ true) × ((n s).0 ≡ ok a)
  unless-ok true m n s fails h = (refl, h)
  unless-ok false m n s fails h = elim (fails h) [ ]
