-- ===== src/ExtendedInt.antt =====
-- Integers with two infinities (common/extended_int.py), as `BatchSequence.filter` uses them.
pub mod Order
use zsequencer.Prelude.{Bool, true, false, not, ◌&&◌, Option, none, some, if◌then◌else◌}
use zsequencer.Prelude.Int.{ℤ, pos, ◌+ℤ◌, neg, ltb_ℤ, eqb_ℤ}

-- `_value` is an int, "inf" or "-inf".
pub data ExtendedInt : Type 0 where
  int : ℤ → ExtendedInt
  inf minus_inf : ExtendedInt

-- `none_as` is the infinity for which `None` stands.
unfoldable pub from_optional_int : Option ℤ → ExtendedInt → ExtendedInt
from_optional_int (some value) none_as = int value
from_optional_int none none_as = none_as

-- `__eq__` between two extended integers.
unfoldable pub eq : ExtendedInt → ExtendedInt → Bool
eq (int a) (int b) = eqb_ℤ a b
eq inf inf = true
eq minus_inf minus_inf = true
eq _ _ = false

-- `__eq__` against a plain int.
unfoldable pub eq_int : ExtendedInt → ℤ → Bool
eq_int (int a) b = eqb_ℤ a b
eq_int inf b = false
eq_int minus_inf b = false

is_inf : ExtendedInt → Bool
is_inf inf = true
is_inf _ = false

is_minus_inf : ExtendedInt → Bool
is_minus_inf minus_inf = true
is_minus_inf _ = false

-- The tests of `__lt__` after the one for equality.
lt_distinct : ExtendedInt → ExtendedInt → Bool
unfolding is_inf is_minus_inf
lt_distinct (int a) (int b) = ltb_ℤ a b
lt_distinct (int a) b = if is_minus_inf b then false else true
lt_distinct a b = if is_inf a then false else if is_minus_inf b then false else true

-- `__lt__`
unfoldable pub lt : ExtendedInt → ExtendedInt → Bool
unfolding eq lt_distinct
lt a b = if eq a b then false else lt_distinct a b

-- `__ge__` and `__gt__`, as `total_ordering` derives them from `__lt__` and `__eq__`.
unfoldable pub ge : ExtendedInt → ExtendedInt → Bool
unfolding lt
ge a b = not (lt a b)

unfoldable pub gt : ExtendedInt → ExtendedInt → Bool
unfolding lt eq
gt a b = not (lt a b) && not (eq a b)

-- Python's `max` keeps the first of equals, and so does `min`.
unfoldable pub max : ExtendedInt → ExtendedInt → ExtendedInt
unfolding gt
max a b = if gt b a then b else a

unfoldable pub min : ExtendedInt → ExtendedInt → ExtendedInt
unfolding lt
min a b = if lt b a then b else a

-- `__add__`
unfoldable pub add : ExtendedInt → ℤ → ExtendedInt
add (int a) value = int (a +ℤ value)
add inf value = inf
add minus_inf value = minus_inf

-- `__sub__`
unfoldable pub sub : ExtendedInt → ℤ → ExtendedInt
unfolding add
sub a value = add a (neg value)

unfoldable pub to_optional_int : ExtendedInt → Option ℤ
to_optional_int (int a) = some a
to_optional_int inf = none
to_optional_int minus_inf = none
