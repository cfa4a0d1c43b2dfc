-- ===== src/Distinct.antt =====
-- The items of a list without repetition, as Python's `set` of the list counts them.
use mathlib.Core.List.{Memᴰ}
use mathlib.Core.List.Memᴰ.{head, tail, not-nil}
use zsequencer.Prelude.{
  ◌≤◌, ◌≡◌, refl, Bool, true, false, List, [], ◌∷◌, length, ◌||◌, arith, Bool-cases, inl, inr,
  if◌then◌else◌,
}

module _ {A : Type 0} where
  -- No item stands in the list again.
  abbrev pub IsDistinct : List A → Type 0
  IsDistinct [] = Unit {0}
  IsDistinct (x ∷ xs) = (¬ Memᴰ x xs) × IsDistinct xs

module _ {A : Type 0} (same : A → A → Bool) where
  unfoldable pub member : A → List A → Bool
  member x [] = false
  member x (y ∷ ys) = same x y || member x ys

  -- `set(xs)`
  unfoldable pub to_set : List A → List A
  unfolding member
  to_set [] = []
  to_set (x ∷ xs) = let rest = to_set xs in if member x rest then rest else x ∷ rest

  -- Two items of a list whose set has one item at most are the same as that one.
  only_member :
      (x y : A) (set : List A)
      → length set ≤ 1
      → member x set ≡ true
      → member y set ≡ true
      → (z : A) × (same x z ≡ true) × (same y z ≡ true)
  unfolding member
  only_member x y [] h a b = absurd (ground arith)
  only_member x y (z ∷ []) h a b = (z, ground arith, ground arith)
  only_member x y (z ∷ w ∷ set) h a b = absurd (omega arith)

  module _ (self : (x : A) → same x x ≡ true) where
    pub member_of : (x : A) (xs : List A) → Memᴰ x xs → member x (to_set xs) ≡ true
    unfolding member to_set
    member_of x [] m = absurd (not-nil m)
    member_of x (y ∷ ys) (head e) = elim (Bool-cases (member y (to_set ys))) [
      | inl h ↦ rw e (rw h h)
      | inr h ↦ rw e (rw h (rw (self y) refl))
    ]
    member_of x (y ∷ ys) (tail m) = elim (Bool-cases (member y (to_set ys))) [
      | inl h ↦ rw h (member_of x ys m)
      | inr h ↦ rw h (ground (arith, member_of x ys m))
    ]

    length-to_set : (xs : List A) → length (to_set xs) ≤ length xs
    unfolding to_set
    length-to_set [] = omega arith
    length-to_set (x ∷ xs) = elim (Bool-cases (member x (to_set xs))) [
      | inl h ↦ rw h (omega (arith, length-to_set xs))
      | inr h ↦ rw h (omega (arith, length-to_set xs))
    ]

    -- A list whose set is as long as itself has no repetition.
    pub to_set-IsDistinct : (xs : List A) → length xs ≤ length (to_set xs) → IsDistinct xs
    unfolding to_set
    to_set-IsDistinct [] h = tt
    to_set-IsDistinct (x ∷ xs) h = elim (Bool-cases (member x (to_set xs))) [
      | inl e ↦ absurd (let k = rw e at h in omega (arith, length-to_set xs))
      | inr e ↦
          let k = rw e at h in
          ((λ m. absurd (cc (member_of x xs m))), to_set-IsDistinct xs (omega arith))
    ]

    pub to_set-only :
        (xs : List A) (x y : A)
        → length (to_set xs) ≤ 1
        → Memᴰ x xs
        → Memᴰ y xs
        → (z : A) × (same x z ≡ true) × (same y z ≡ true)
    to_set-only xs x y h m n = only_member x y (to_set xs) h (member_of x xs m) (member_of y xs n)
