-- ===== src/Switch/Dispute/Names.antt =====
-- Distinct names: some of them, and their set.
use mathlib.Core.List.{Memᴰ}
use mathlib.Core.List.Memᴰ.{head, tail, not-nil}
use zsequencer.Prelude.{
  suc, ◌≡◌, refl, ap, true, List, [], ◌∷◌, ◌++◌, String, arith, length, str_eq, eq_iff, Bool-cases,
  inl, inr,
}
use zsequencer.Distinct.{IsDistinct, to_set, member}

module _ {A : Type 0} where
  mem_middle : (x y : A) (xs ys : List A) → Memᴰ x (xs ++ ys) → Memᴰ x (xs ++ y ∷ ys)
  mem_middle x y [] ys m = tail m
  mem_middle x y (z ∷ xs) ys (head e) = head e
  mem_middle x y (z ∷ xs) ys (tail m) = tail (mem_middle x y xs ys m)

  -- A list without one of its items is still distinct.
  pub IsDistinct-without :
      (y : A) (xs ys : List A) → IsDistinct (xs ++ y ∷ ys) → IsDistinct (xs ++ ys)
  IsDistinct-without y [] ys d = d.1
  IsDistinct-without y (x ∷ xs) ys (n, d) =
      ((λ m. n (mem_middle x y xs ys m)), IsDistinct-without y xs ys d)

  pub IsDistinct-prefix : (xs ys : List A) → IsDistinct (xs ++ ys) → IsDistinct xs
  IsDistinct-prefix [] ys d = tt
  IsDistinct-prefix (x ∷ xs) ys (n, d) = ((λ m. n (mem_left xs m)), IsDistinct-prefix xs ys d)
    where
      mem_left : (zs : List A) → Memᴰ x zs → Memᴰ x (zs ++ ys)
      mem_left [] m = absurd (not-nil m)
      mem_left (z ∷ zs) (head e) = head e
      mem_left (z ∷ zs) (tail m) = tail (mem_left zs m)

-- The set of distinct names has as many names.
mem_of_member :
    (x : String) (xs : List String) → member str_eq x (to_set str_eq xs) ≡ true → Memᴰ x xs
unfolding member to_set
mem_of_member x [] h = absurd cc
mem_of_member x (y ∷ ys) h = elim (Bool-cases (member str_eq y (to_set str_eq ys))) [
  | inl e ↦ tail (mem_of_member x ys (rw (to_set, e) at h))
  | inr e ↦ elim (Bool-cases (str_eq x y)) [
    | inl s ↦ head (ground (arith, eq_iff x y))
    | inr s ↦ tail (mem_of_member x ys (rw (to_set, e, member, s) at h))
  ]
]

pub length-to_set_distinct :
    (xs : List String) → IsDistinct xs → length (to_set str_eq xs) ≡ length xs
unfolding to_set
length-to_set_distinct [] d = refl
length-to_set_distinct (x ∷ xs) (n, d) = elim (Bool-cases (member str_eq x (to_set str_eq xs))) [
  | inl e ↦ absurd (n (mem_of_member x xs e))
  | inr e ↦ rw (to_set, e) (ap suc (length-to_set_distinct xs d))
]
