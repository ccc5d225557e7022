-- ===== src/Tests/Digest.antt =====
-- A digest without collisions, in place of SHA-256: the payload itself, escaped.
use Prim.Native.Char.{Char, code}
use poc_dcs.Common.{arith, String, Bool, true, false, ℕ, zero, suc, ◌≡◌, refl, List, [], ◌∷◌, ap}
use poc_dcs.Pdp.{KeyPayload, Digests}
use poc_dcs.Enforcer.Authorize.{NoCollision}

-- Each encoder puts its value before a rest.
put_bool : Bool → String → String
put_bool true rest = String.◌∷◌ "t" rest
put_bool false rest = String.◌∷◌ "f" rest

put_nat : ℕ → String → String
put_nat zero rest = String.◌∷◌ "z" rest
put_nat (suc n) rest = String.◌∷◌ "s" (put_nat n rest)

put_string : String → String → String
put_string String.[] rest = String.◌∷◌ "e" rest
put_string (String.◌∷◌ c s) rest = String.◌∷◌ "c" (String.◌∷◌ c (put_string s rest))

put_list : {A : Type 0} → (A → String → String) → List A → String → String
put_list put [] rest = String.◌∷◌ "e" rest
put_list put (x ∷ xs) rest = String.◌∷◌ "c" (put x (put_list put xs rest))

head-code : (c d : Char) (r s : String) → String.◌∷◌ c r ≡ String.◌∷◌ d s → code c ≡ code d
head-code c d r s h = cc

abbrev Separates : {A : Type 0} → (A → String → String) → Type 0
Separates {A} put = (x y : A) (r s : String) → put x r ≡ put y s → (x ≡ y) × (r ≡ s)

put_bool-Separates : Separates put_bool
unfolding put_bool
put_bool-Separates true true r s h = (refl, cc)
put_bool-Separates true false r s h = absurd (omega (arith, head-code "t" "f" _ _ h))
put_bool-Separates false true r s h = absurd (omega (arith, head-code "f" "t" _ _ h))
put_bool-Separates false false r s h = (refl, cc)

put_nat-Separates : Separates put_nat
unfolding put_nat
put_nat-Separates zero zero r s h = (refl, cc)
put_nat-Separates zero (suc n) r s h = absurd (omega (arith, head-code "z" "s" _ _ h))
put_nat-Separates (suc m) zero r s h = absurd (omega (arith, head-code "s" "z" _ _ h))
put_nat-Separates (suc m) (suc n) r s h =
    let (same, rest) = put_nat-Separates m n r s cc in (ap suc same, rest)

put_string-Separates : Separates put_string
unfolding put_string
put_string-Separates String.[] String.[] r s h = (refl, cc)
put_string-Separates String.[] (String.◌∷◌ d t) r s h =
    absurd (omega (arith, head-code "e" "c" _ _ h))
put_string-Separates (String.◌∷◌ c u) String.[] r s h =
    absurd (omega (arith, head-code "c" "e" _ _ h))
put_string-Separates (String.◌∷◌ c u) (String.◌∷◌ d t) r s h =
    let (same, rest) = put_string-Separates u t r s cc in (cc, rest)

put_list-Separates :
    {A : Type 0} (put : A → String → String) → Separates put → Separates (put_list put)
unfolding put_list
put_list-Separates put one [] [] r s h = (refl, cc)
put_list-Separates put one [] (y ∷ ys) r s h = absurd (omega (arith, head-code "e" "c" _ _ h))
put_list-Separates put one (x ∷ xs) [] r s h = absurd (omega (arith, head-code "c" "e" _ _ h))
put_list-Separates put one (x ∷ xs) (y ∷ ys) r s h =
    let (first, tails) = one x y (put_list put xs r) (put_list put ys s) cc in
    let (same, rest) = put_list-Separates put one xs ys r s tails in (cc, rest)

pub put_payload : KeyPayload → String
put_payload p = put_bool p.dcs (
    put_string p.action (
      put_string p.tenant (
        put_string p.role (
          put_string p.user (
            put_string p.resource (
              put_list put_nat p.owner
                (put_list put_string p.labels (put_list put_string p.fields "EOF"))))))))

put_payload_separates : (p q : KeyPayload) → put_payload p ≡ put_payload q → p ≡ q
unfolding put_payload
put_payload_separates p q h =
    let (e0, h0) = put_bool-Separates _ _ _ _ h in
    let (e1, h1) = put_string-Separates _ _ _ _ h0 in
    let (e2, h2) = put_string-Separates _ _ _ _ h1 in
    let (e3, h3) = put_string-Separates _ _ _ _ h2 in
    let (e4, h4) = put_string-Separates _ _ _ _ h3 in
    let (e5, h5) = put_string-Separates _ _ _ _ h4 in
    let (e6, h6) = put_list-Separates put_nat put_nat-Separates _ _ _ _ h5 in
    let (e7, h7) = put_list-Separates put_string put_string-Separates _ _ _ _ h6 in
    let (e8, h8) = put_list-Separates put_string put_string-Separates _ _ _ _ h7 in cc

abbrev pub digests : Digests
digests = record { of_decision = λ d. d.reason; of_key = put_payload }

pub digests-NoCollision : NoCollision digests
digests-NoCollision p q h = put_payload_separates p q h
