-- ===== src/Action/Answers.antt =====
-- Actions that never fail.
use poc_dcs.Common.{◌≡◌, refl, ok}
use poc_dcs.Action.{Act, pure, ◌>>=◌}

pub record Answers {S : Type 0} {A : Type 0} (m : Act S A) : Type 0 where
  pub answer : (s : S) → (a : A) × ((m s).0 ≡ ok a)

module _ {S : Type 0} {A : Type 0} where
  pub pure-Answers : (a : A) → Answers {S = S} (pure a)
  pure-Answers a = record { answer = λ s. (a, refl) }

module _ {S : Type 0} {A : Type 0} {B : Type 0} where
  pub bind-Answers :
      (m : Act S A) {f : A → Act S B} → Answers m → ((a : A) → Answers (f a)) → Answers (m >>= f)
  bind-Answers m {f} h k = record {
    answer = λ s.
        let (a, got) = h.answer s in let (b, then') = (k a).answer (m s).1 in (b, rw got then');
  }
