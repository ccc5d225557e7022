-- ===== src/Action/Leaves.antt =====
-- Actions that leave a part of the state as it was.
use poc_dcs.Common.{Bool, true, false, ◌≡◌, refl, ◌∙◌, if◌then◌else◌, Error}
use poc_dcs.Action.{Act, pure, raise, bind-keeps, ◌>>=◌}

pub record Leaves {S : Type 0} {X : Type 0} {A : Type 0} (view : S → X) (m : Act S A) : Type 0 where
  pub left : (s : S) → view (m s).1 ≡ view s

module _ {S : Type 0} {X : Type 0} {A : Type 0} where
  pub of-left : (view : S → X) (m : Act S A) → ((s : S) → view (m s).1 ≡ view s) → Leaves view m
  of-left view m h = record { left = h }

  pub pure-Leaves : (view : S → X) (a : A) → Leaves view (pure a)
  pure-Leaves view a = record { left = λ s. refl }

  pub raise-Leaves : (view : S → X) (e : Error) → Leaves view (raise {A = A} e)
  raise-Leaves view e = record { left = λ s. refl }

  pub if-Leaves :
      {view : S → X} (b : Bool) {m n : Act S A}
      → Leaves view m
      → Leaves view n
      → Leaves view (if b then m else n)
  if-Leaves true h k = h
  if-Leaves false h k = k

module _ {S : Type 0} {X : Type 0} {A : Type 0} {B : Type 0} where
  pub bind-Leaves :
      {view : S → X} {m : Act S A} {f : A → Act S B}
      → Leaves view m
      → ((a : A) → Leaves view (f a))
      → Leaves view (m >>= f)
  bind-Leaves {view} {m} {f} h k = record {
    left = λ s.
        bind-keeps (λ t. view t ≡ view s) m f s (h.left s) (λ a _. (k a).left (m s).1 ∙ h.left s);
  }
