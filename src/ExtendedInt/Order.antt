-- ===== src/ExtendedInt/Order.antt =====
-- The order of the extended integers, and how `max`, `min` and the arithmetic go with it.
use zsequencer.Prelude.{◌≡◌, refl, ◌⊎◌, true, false, not, ◌&&◌, ◌||◌, arith}
use zsequencer.ExtendedInt.{ExtendedInt, lt, ge, max, min}

-- The order of the extended integers is irreflexive, transitive and total.
pub lt_strict_total :
    (a b c : ExtendedInt)
    → (lt a a ≡ false)
      × ((lt a b && lt b c && not (lt a c)) ≡ false)
      × ((lt a b ≡ true) ⊎ (a ≡ b) ⊎ (lt b a ≡ true))
unfolding lt
lt_strict_total a b c = (ground arith, ground arith, ground arith)

-- Less than `c` is the greater of two exactly when both are.
pub max-lt : (a b c : ExtendedInt) → lt (max a b) c ≡ (lt a c && lt b c)
unfolding max lt
max-lt a b c = ground arith

-- The lesser of two is less than `c` exactly when one of them is.
pub min-lt : (a b c : ExtendedInt) → lt (min a b) c ≡ (lt a c || lt b c)
unfolding min lt
min-lt a b c = ground arith

pub ge_lem : (a b : ExtendedInt) → ge a b ≡ not (lt a b)
unfolding ge
ge_lem a b = refl

-- What is not below `a`, and below `b`, shows that `a` is below `b`.
pub lt_of_between : (a b c : ExtendedInt) → lt c a ≡ false → lt c b ≡ true → lt a b ≡ true
unfolding lt
lt_of_between a b c h k = ground arith
