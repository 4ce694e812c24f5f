-- ===== src/Prelude/Text.antt =====
-- Go's order on strings. Go compares bytes; on well-formed UTF-8 that is the lexicographic order
-- of the code points, which is written out here.
use Prim.Native.Char.{code}
use Prim.Native.String.{String, [], ◌∷◌}
use mathlib.Core.Path.{◌≡◌, refl, ap₂}
use mathlib.Core.Bool.{Bool, true, false}
use native.Mathlib.Omega.{arith}
use text.Mathlib.TextEquality.{Char-path}
use challenge_service.Prelude.Tests.{ltb, nat_eq, if◌then◌else◌}

-- `s < t`
unfoldable pub str_lt : String → String → Bool
str_lt [] [] = false
str_lt [] (d ∷ t) = true
str_lt (c ∷ s) [] = false
str_lt (c ∷ s) (d ∷ t) =
    if ltb (code c) (code d) then true else if nat_eq (code c) (code d) then str_lt s t else false

pub str_lt_asymm : (s t : String) → str_lt s t ≡ true → str_lt t s ≡ false
unfolding str_lt
str_lt_asymm [] [] h = refl
str_lt_asymm [] (d ∷ t) h = refl
str_lt_asymm (c ∷ s) [] h = cc
str_lt_asymm (c ∷ s) (d ∷ t) h = ground (arith, str_lt_asymm s t)

pub str_lt_trans : (s t u : String) → str_lt s t ≡ true → str_lt t u ≡ true → str_lt s u ≡ true
unfolding str_lt
str_lt_trans [] [] u h k = cc
str_lt_trans [] (d ∷ t) [] h k = cc
str_lt_trans [] (d ∷ t) (e ∷ u) h k = refl
str_lt_trans (c ∷ s) [] u h k = cc
str_lt_trans (c ∷ s) (d ∷ t) [] h k = cc
str_lt_trans (c ∷ s) (d ∷ t) (e ∷ u) h k = ground (arith, str_lt_trans s t u)

-- Two texts of which neither is less than the other are one.
pub str_lt_connex : (s t : String) → str_lt s t ≡ false → str_lt t s ≡ false → s ≡ t
unfolding str_lt
str_lt_connex [] [] h k = refl
str_lt_connex [] (d ∷ t) h k = cc
str_lt_connex (c ∷ s) [] h k = cc
str_lt_connex (c ∷ s) (d ∷ t) h k =
    ap₂ ◌∷◌ (Char-path c d (ground arith)) (str_lt_connex s t (ground arith) (ground arith))

-- `t ≤ s` is transitive.
pub str_lt_neg_trans :
    (s t u : String) → str_lt s t ≡ false → str_lt t u ≡ false → str_lt s u ≡ false
unfolding str_lt
str_lt_neg_trans [] [] u h k = k
str_lt_neg_trans [] (d ∷ t) u h k = cc
str_lt_neg_trans (c ∷ s) [] [] h k = refl
str_lt_neg_trans (c ∷ s) [] (e ∷ u) h k = cc
str_lt_neg_trans (c ∷ s) (d ∷ t) [] h k = refl
str_lt_neg_trans (c ∷ s) (d ∷ t) (e ∷ u) h k = ground (arith, str_lt_neg_trans s t u)
