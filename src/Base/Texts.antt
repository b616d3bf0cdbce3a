-- ===== src/Base/Texts.antt =====
-- The order of texts by their characters.
use Prim.Native.Nat.{ℕ, zero, suc, Ordering, compare as compare_ℕ}
use Prim.Native.Nat.compare as Numbers
use Prim.Native.Char.{code}
use Prim.Native.String.{String, [], ◌∷◌, then, compare}
use Prim.Native.String.compare as Strings
use mathlib.Core.Path.{◌≡◌, refl, sym, ap, ◌∙◌}
use mathlib.Core.Bool.{true, false}
use text.Mathlib.Text.{is_lt}
use package.middleware_operator_mana.Base.Tests.{str_lt}

abbrev opposite : Ordering → Ordering
opposite Ordering.lt = Ordering.gt
opposite Ordering.eq = Ordering.eq
opposite Ordering.gt = Ordering.lt

compare_ℕ-swap : (m n : ℕ) → compare_ℕ n m ≡ opposite (compare_ℕ m n)
compare_ℕ-swap zero zero = rw Numbers.zero-zero refl
compare_ℕ-swap zero (suc n) = Numbers.suc-zero n ∙ ap opposite (sym (Numbers.zero-suc n))
compare_ℕ-swap (suc m) zero = Numbers.zero-suc m ∙ ap opposite (sym (Numbers.suc-zero m))
compare_ℕ-swap (suc m) (suc n) =
    Numbers.suc-suc n m ∙ compare_ℕ-swap m n ∙ ap opposite (sym (Numbers.suc-suc m n))

then-opposite : (o r : Ordering) → then (opposite o) (opposite r) ≡ opposite (then o r)
then-opposite Ordering.lt r = refl
then-opposite Ordering.eq r = refl
then-opposite Ordering.gt r = refl

compare-swap : (s t : String) → compare t s ≡ opposite (compare s t)
compare-swap [] [] = refl
compare-swap [] (d ∷ t) = Strings.cons-nil d t ∙ ap opposite (sym (Strings.nil-cons d t))
compare-swap (c ∷ s) [] = Strings.nil-cons c s ∙ ap opposite (sym (Strings.cons-nil c s))
compare-swap (c ∷ s) (d ∷ t) =
    Strings.cons-cons d c t s
    ∙ rw (compare_ℕ-swap (code c) (code d), compare-swap s t)
        (then-opposite (compare_ℕ (code c) (code d)) (compare s t))
    ∙ ap opposite (sym (Strings.cons-cons c d s t))

turned : (o : Ordering) → is_lt o ≡ true → is_lt (opposite o) ≡ false
turned Ordering.lt h = refl
turned Ordering.eq h = refl
turned Ordering.gt h = sym h

pub str_lt-asymmetric : (s t : String) → str_lt s t ≡ true → str_lt t s ≡ false
str_lt-asymmetric s t h = rw (compare-swap s t) (turned (compare s t) h)
