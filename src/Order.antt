-- ===== src/Order.antt =====
-- Go's `sort.Strings`: the order of the bytes, and a sort whose result does not depend on the order
-- of the input.
use mathlib.Core.List.{Perm, Permᴰ}
use mathlib.Core.Logic.{∥∥₁_elim}
use mathlib.Core.HLevel.{prop→set}
use Prim.Native.Char.{code}
use text.Mathlib.TextEquality.{Char-path, IsScalar-prop}
use poc_dcs.Common.{
  String, Text, bytes, Bool, true, false, ℕ, ltb, eqb, ◌≡◌, refl, ◌∙◌, List, [], ◌∷◌, arith,
  if◌then◌else◌,
}

abbrev pub text_leb : Text → Text → Bool
text_leb [] t = true
text_leb (a ∷ s) [] = false
text_leb (a ∷ s) (b ∷ t) = if ltb a b then true else if eqb a b then text_leb s t else false

unfoldable pub string_leb : String → String → Bool
string_leb s t = text_leb (bytes s) (bytes t)

insert_sorted : String → List String → List String
insert_sorted s [] = s ∷ []
insert_sorted s (t ∷ ts) = if string_leb s t then s ∷ t ∷ ts else t ∷ insert_sorted s ts

unfoldable pub sort_strings : List String → List String
unfolding insert_sorted string_leb
sort_strings [] = []
sort_strings (s ∷ ss) = insert_sorted s (sort_strings ss)

text_leb_total : (s t : Text) → text_leb s t ≡ false → text_leb t s ≡ true
text_leb_total [] t h = cc
text_leb_total (a ∷ s) [] h = refl
text_leb_total (a ∷ s) (b ∷ t) h = ground (arith, text_leb_total s t)

text_leb_antisymm : (s t : Text) → text_leb s t ≡ true → text_leb t s ≡ true → s ≡ t
text_leb_antisymm [] [] h k = refl
text_leb_antisymm [] (b ∷ t) h k = cc
text_leb_antisymm (a ∷ s) [] h k = cc
text_leb_antisymm (a ∷ s) (b ∷ t) h k = ground (arith, text_leb_antisymm s t)

text_leb_trans : (s t u : Text) → text_leb s t ≡ true → text_leb t u ≡ true → text_leb s u ≡ true
text_leb_trans [] t u h k = refl
text_leb_trans (a ∷ s) [] u h k = cc
text_leb_trans (a ∷ s) (b ∷ t) [] h k = cc
text_leb_trans (a ∷ s) (b ∷ t) (c ∷ u) h k = ground (arith, text_leb_trans s t u)

bytes_inj : (s t : String) → bytes s ≡ bytes t → s ≡ t
bytes_inj String.[] String.[] h = refl
bytes_inj String.[] (String.◌∷◌ d t) h = cc
bytes_inj (String.◌∷◌ c s) String.[] h = cc
bytes_inj (String.◌∷◌ c s) (String.◌∷◌ d t) h =
    let same : code c ≡ code d = cc in
    let rest : bytes s ≡ bytes t = cc in cc (Char-path c d same, bytes_inj s t rest)

leb_total : (s t : String) → string_leb s t ≡ false → string_leb t s ≡ true
unfolding string_leb
leb_total s t = text_leb_total (bytes s) (bytes t)

leb_antisymm : (s t : String) → string_leb s t ≡ true → string_leb t s ≡ true → s ≡ t
unfolding string_leb
leb_antisymm s t h k = bytes_inj s t (text_leb_antisymm (bytes s) (bytes t) h k)

leb_trans : (s t u : String) → string_leb s t ≡ true → string_leb t u ≡ true → string_leb s u ≡ true
unfolding string_leb
leb_trans s t u = text_leb_trans (bytes s) (bytes t) (bytes u)

-- Two insertions commute, since texts that are in order both ways are the same.
insert_sorted_comm :
    (s t : String) (l : List String)
    → insert_sorted s (insert_sorted t l) ≡ insert_sorted t (insert_sorted s l)
unfolding insert_sorted
insert_sorted_comm s t [] = ground (arith, leb_total s t, leb_antisymm s t)
insert_sorted_comm s t (u ∷ l) = ground (
  arith,
  leb_total s t,
  leb_antisymm s t,
  leb_trans s t u,
  leb_trans t s u,
  leb_total t u,
  leb_total s u,
  leb_trans s u t,
  leb_trans t u s,
  insert_sorted_comm s t l,
)

sort-Permᴰ : {xs ys : List String} → Permᴰ xs ys → sort_strings xs ≡ sort_strings ys
unfolding sort_strings
sort-Permᴰ Permᴰ.nil = refl
sort-Permᴰ (Permᴰ.cons p h) = cc (p, sort-Permᴰ h)
sort-Permᴰ (Permᴰ.swap {a = a} {b = b} {l = l} p q) =
    cc (p, q, insert_sorted_comm a b (sort_strings l))
sort-Permᴰ (Permᴰ.trans h k) = sort-Permᴰ h ∙ sort-Permᴰ k

String-set : IsSet String
String-set = hlevel (λ (x : ℕ). prop→set (IsScalar-prop x))

String-list-set : IsSet (List String)
String-list-set = hlevel String-set

-- Lists that are equal up to order have the same sort.
pub sort-perm : {xs ys : List String} → Perm xs ys → sort_strings xs ≡ sort_strings ys
sort-perm h = ∥∥₁_elim h (String-list-set _ _) sort-Permᴰ

sort_test : sort_strings ("b" ∷ "ab" ∷ "a" ∷ []) ≡ "a" ∷ "ab" ∷ "b" ∷ []
unfolding sort_strings
sort_test = refl
