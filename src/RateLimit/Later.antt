-- ===== src/RateLimit/Later.antt =====
-- A cost within the capacity that was read is granted later, if nothing is granted in between.
use zsequencer.Prelude.{
  ℕ, ◌+◌, ◌≤◌, ◌≡◌, refl, ◌∙◌, true, false, List, [], ◌∷◌, String, arith, ◌==◌, leb, Bool-cases,
  Option-cases, inl, inr,
}
use zsequencer.Dict.{lookup}
use zsequencer.RateLimit.{
  MovingWindowRateLimiter, Event, update_max_cost, get_remaining_capacity, try_acquire, total_cost,
  is_expired,
}
use zsequencer.RateLimit.Expiry.{recent}
use zsequencer.RateLimit.Acquire.{
  IsValid, recent_cost, events_of, get_remaining_capacity_lem, events-get_remaining,
  get_remaining_capacity-IsValid, try_acquire_lem,
}

-- Dropping expired events does not add to the cost.
total_cost-recent : (now n : ℕ) (es : List Event) → total_cost (recent now n es) ≤ total_cost es
unfolding total_cost
total_cost-recent now n [] = omega arith
total_cost-recent now n (e ∷ es) = elim (Bool-cases (is_expired now n e)) [
  | inl x ↦ rw x (omega (arith, total_cost-recent now n es))
  | inr x ↦ rw x (omega (arith, total_cost-recent now n es))
]

positive : (n : ℕ) → (n == 0) ≡ false → 1 ≤ n
positive n h = ground arith

le→leb : (a b : ℕ) → a ≤ b → leb a b ≡ true
le→leb a b h = ground arith

module _ (l : MovingWindowRateLimiter) (id : String) (now : ℕ) where
  pub window_length-get_remaining :
      (get_remaining_capacity l id now).1.window_length ≡ l.window_length
  unfolding get_remaining_capacity
  window_length-get_remaining = elim (Option-cases (lookup id l.windows)) [
    | inl e ↦ rw e refl
    | inr (w, e) ↦ rw e refl
  ]

  update_max-IsValid :
      (max_cost clock : ℕ) → IsValid l clock → IsValid (update_max_cost l max_cost) clock
  unfolding update_max_cost
  update_max-IsValid max_cost clock v = record { exact = v.exact; past = v.past }

pub granted_later :
    (l : MovingWindowRateLimiter) (id : String) (clock now then later cost : ℕ)
    → clock ≤ now
    → IsValid l clock
    → cost ≤ (get_remaining_capacity l id now).0
    → (try_acquire
        (update_max_cost (get_remaining_capacity l id now).1 l.max_cost)
        id
        cost
        then
        later).0
      ≡ true
unfolding update_max_cost
granted_later l id clock now then later cost h v fits = elim (Bool-cases (cost == 0)) [
  | inl z ↦ unfold try_acquire in rw z refl
  | inr z ↦
      let r = (get_remaining_capacity l id now).1 in
      let l' = update_max_cost r l.max_cost in
      let v' =
        update_max-IsValid r id now l.max_cost now
          (get_remaining_capacity-IsValid l id now clock h v) in
      let (granted, after) = try_acquire_lem l' id then now v' cost later (ground (arith, z)) in
      let kept = recent now l.window_length (events_of l id) in
      let same : recent_cost l' id then ≡ total_cost (recent then l.window_length kept) =
        rw (window_length-get_remaining l id now, events-get_remaining l id now clock v) refl in
      let fits' = rw (get_remaining_capacity_lem l id now clock v) at fits in
      let below : total_cost (recent then l.window_length kept) + cost ≤ l.max_cost =
        omega (arith, fits', total_cost-recent then l.window_length kept, positive cost z) in
      granted ∙ rw same (le→leb _ _ below)
]
