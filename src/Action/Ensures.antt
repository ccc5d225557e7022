-- ===== src/Action/Ensures.antt =====
-- What holds of the value that an action returns, whatever state it starts in.
use poc_dcs.Common.{◌≡◌, ok, subst}
use poc_dcs.Action.{Act, pure, bind-ok_at, ◌>>=◌}

pub record Ensures {S : Type 0} {A : Type 0} (P : A → Type 0) (m : Act S A) : Type 0 where
  pub ensured : (s : S) (a : A) → (m s).0 ≡ ok a → P a

module _ {S : Type 0} {A : Type 0} where
  pub pure-Ensures : {P : A → Type 0} (a : A) → P a → Ensures {S = S} P (pure a)
  pure-Ensures {P} a h = record { ensured = λ s b returned. subst P (cc) h }

module _ {S : Type 0} {A : Type 0} {B : Type 0} where
  pub bind-Ensures :
      {P : B → Type 0} (m : Act S A) {f : A → Act S B}
      → ((a : A) (s : S) → (m s).0 ≡ ok a → Ensures P (f a))
      → Ensures P (m >>= f)
  bind-Ensures m {f} rest = record {
    ensured =
        λ s b h. let (a, got, then') = bind-ok_at m f s h in (rest a s got).ensured (m s).1 b then';
  }
