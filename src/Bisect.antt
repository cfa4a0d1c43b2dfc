-- ===== src/Bisect.antt =====
-- Python's `bisect` module as the code uses it: the binary search for the first position of a
-- sorted list at which a test on the key fails.
use zsequencer.Prelude.{
  ℕ, zero, suc, ◌+◌, ◌-◌, ◌/◌, ◌≤◌, ◌<◌, ◌≡◌, Bool, true, false, arith, ltb, if◌then◌else◌,
  Bool-cases, lt_or_le, ltb→lt, inl, inr,
}

-- `while lo < hi` of `bisect_left` and `bisect_right`, on fuel; the test at `mid` says whether to
-- go on above it.
pub search_from : (ℕ → Bool) → ℕ → ℕ → ℕ → ℕ
search_from test zero lo hi = lo
search_from test (suc fuel) lo hi =
    let mid = (lo + hi) / 2 in
    let above = search_from test fuel (mid + 1) hi in
    let below = search_from test fuel lo mid in
    if ltb lo hi then (if test mid then above else below) else lo

-- The search in a list of `n` items, with enough fuel.
unfoldable pub bisect : (ℕ → Bool) → ℕ → ℕ
unfolding search_from
bisect test n = search_from test n 0 n

-- The test holds up to some position and fails from it on: the list is sorted.
abbrev pub IsMonotone : (ℕ → Bool) → Type 0
IsMonotone test = (i j : ℕ) → i ≤ j → test j ≡ true → test i ≡ true

-- The test holds below the position and fails from it on.
pub record Splits (test : ℕ → Bool) (lo hi r : ℕ) : Type 0 where
  pub from_lo : lo ≤ r
  pub to_hi : r ≤ hi
  pub holds_below : (i : ℕ) → lo ≤ i → i < r → test i ≡ true
  pub fails_above : (i : ℕ) → r ≤ i → i < hi → test i ≡ false

Splits-upper :
    (test : ℕ → Bool) (lo mid hi r : ℕ)
    → IsMonotone test
    → lo ≤ mid
    → test mid ≡ true
    → Splits test (mid + 1) hi r
    → Splits test lo hi r
Splits-upper test lo mid hi r m h t p = record {
  from_lo = omega (arith, p.from_lo);
  to_hi = p.to_hi;
  holds_below = λ i a b. elim (lt_or_le i (mid + 1)) [
    | inl x ↦ m i mid (omega arith) t
    | inr x ↦ p.holds_below i x b
  ];
  fails_above = p.fails_above;
}

Splits-lower :
    (test : ℕ → Bool) (lo mid hi r : ℕ)
    → IsMonotone test
    → mid ≤ hi
    → test mid ≡ false
    → Splits test lo mid r
    → Splits test lo hi r
Splits-lower test lo mid hi r m h t p = record {
  from_lo = p.from_lo;
  to_hi = omega (arith, p.to_hi);
  holds_below = p.holds_below;
  fails_above = λ i a b. elim (Bool-cases (test i)) [
    | inl x ↦ elim (lt_or_le i mid) [
      | inl y ↦ p.fails_above i a y
      | inr y ↦ absurd (cc (m mid i y x))
    ]
    | inr x ↦ x
  ];
}

search_from-Splits :
    (test : ℕ → Bool) (fuel lo hi : ℕ)
    → IsMonotone test
    → lo ≤ hi
    → hi - lo ≤ fuel
    → Splits test lo hi (search_from test fuel lo hi)
unfolding search_from
search_from-Splits test zero lo hi m h f = record {
  from_lo = omega arith;
  to_hi = omega arith;
  holds_below = λ i a b. absurd (omega arith);
  fails_above = λ i a b. absurd (omega arith);
}
search_from-Splits test (suc fuel) lo hi m h f =
    let mid = (lo + hi) / 2 in
    elim (Bool-cases (ltb lo hi)) [
      | inl x ↦
          let lt = ltb→lt lo hi x in
          elim (Bool-cases (test mid)) [
            | inl t ↦
                rw (x, t)
                  (Splits-upper test lo mid hi _ m (omega arith) t
                    (search_from-Splits test fuel (mid + 1) hi m (omega arith) (omega arith)))
            | inr t ↦
                rw (x, t)
                  (Splits-lower test lo mid hi _ m (omega arith) t
                    (search_from-Splits test fuel lo mid m (omega arith) (omega arith)))
          ]
      | inr x ↦ rw x (record {
        from_lo = omega arith;
        to_hi = h;
        holds_below = λ i a b. absurd (omega arith);
        fails_above = λ i a b. absurd (ground arith);
      })
    ]

-- On a sorted list the binary search stops, and finds the position below which the test holds and
-- from which on it fails.
pub bisect-Splits : (test : ℕ → Bool) (n : ℕ) → IsMonotone test → Splits test 0 n (bisect test n)
unfolding bisect
bisect-Splits test n m = search_from-Splits test n 0 n m (omega arith) (omega arith)
