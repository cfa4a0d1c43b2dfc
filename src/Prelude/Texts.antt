-- ===== src/Prelude/Texts.antt =====
-- The order of texts, which Python's `sorted` takes: by the numbers of their characters.
use Prim.Native.Nat.{ℕ, Ordering, compare as compare_codes}
use Prim.Native.Char.{code}
use Prim.Native.String.{String, [], ◌∷◌, then, compare}
use Prim.Native.String.compare.{nil-nil, nil-cons, cons-cons}
use native.Mathlib.Omega.{compare-lt, compare-eq, compare-gt}
use zsequencer.Prelude.{◌≡◌, refl, sym, ◌∙◌, Bool, true, false, arith}

-- Not after.
abbrev is_le : Ordering → Bool
is_le Ordering.lt = true
is_le Ordering.eq = true
is_le Ordering.gt = false

unfoldable pub str_leb : String → String → Bool
str_leb s t = is_le (compare s t)

codes_swap : (a b : ℕ) → compare_codes a b ≡ Ordering.gt → compare_codes b a ≡ Ordering.lt
codes_swap a b h = go (compare_codes b a) refl
  where
    go : (o : Ordering) → compare_codes b a ≡ o → o ≡ Ordering.lt
    go Ordering.lt e = refl
    go Ordering.eq e = absurd (omega (arith, compare-gt a b h, compare-eq b a e))
    go Ordering.gt e = absurd (omega (arith, compare-gt a b h, compare-gt b a e))

codes_same : (a b : ℕ) → compare_codes a b ≡ Ordering.eq → compare_codes b a ≡ Ordering.eq
codes_same a b h = go (compare_codes b a) refl
  where
    go : (o : Ordering) → compare_codes b a ≡ o → o ≡ Ordering.eq
    go Ordering.lt e = absurd (omega (arith, compare-eq a b h, compare-lt b a e))
    go Ordering.eq e = refl
    go Ordering.gt e = absurd (omega (arith, compare-eq a b h, compare-gt b a e))

lt_not_gt : ¬ (Ordering.lt ≡ Ordering.gt)
lt_not_gt e = cc

eq_not_gt : ¬ (Ordering.eq ≡ Ordering.gt)
eq_not_gt e = cc

swap : (s t : String) → compare s t ≡ Ordering.gt → compare t s ≡ Ordering.lt
swap [] [] h = absurd (eq_not_gt (sym (λ i. nil-nil i) ∙ h))
swap [] (d ∷ t) h = absurd (lt_not_gt (sym (λ i. nil-cons d t i) ∙ h))
swap (c ∷ s) [] h = λ i. nil-cons c s i
swap (c ∷ s) (d ∷ t) h =
    (λ i. cons-cons d c t s i)
    ∙ go (compare_codes (code c) (code d)) refl (swap s t) (sym (λ i. cons-cons c d s t i) ∙ h)
  where
    go :
        (o : Ordering)
        → compare_codes (code c) (code d) ≡ o
        → (compare s t ≡ Ordering.gt → compare t s ≡ Ordering.lt)
        → then o (compare s t) ≡ Ordering.gt
        → then (compare_codes (code d) (code c)) (compare t s) ≡ Ordering.lt
    go Ordering.lt e rest k = absurd (lt_not_gt k)
    go Ordering.eq e rest k = rw (codes_same (code c) (code d) e) (rest k)
    go Ordering.gt e rest k = rw (codes_swap (code c) (code d) e) refl

true_not_false : ¬ (true ≡ false)
true_not_false e = cc

-- One of two texts is not after the other.
pub str_leb_total : (s t : String) → str_leb s t ≡ false → str_leb t s ≡ true
unfolding str_leb
str_leb_total s t h = go (compare s t) refl h
  where
    go : (o : Ordering) → compare s t ≡ o → is_le o ≡ false → is_le (compare t s) ≡ true
    go Ordering.lt e k = absurd (true_not_false k)
    go Ordering.eq e k = absurd (true_not_false k)
    go Ordering.gt e k = rw (swap s t e) refl
