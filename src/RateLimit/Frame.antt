-- ===== src/RateLimit/Frame.antt =====
-- What a call of the limiter leaves as it is, and the recent events of a part of the events.
use zsequencer.Prelude.{
  ℕ, ◌≤◌, ◌≡◌, ◌≢◌, refl, ap, ◌∙◌, true, Option, none, some, List, [], ◌∷◌, ◌++◌, String, arith,
  ◌==◌, leb, Bool-cases, Option-cases, inl, inr,
}
use zsequencer.Dict.{lookup, lookup-insert_ne}
use zsequencer.RateLimit.{
  MovingWindowRateLimiter, Event, Window, get_remaining_capacity, check_capacity, try_acquire,
  is_expired, record_cost,
}
use zsequencer.RateLimit.Expiry.{recent}

pub recent-append :
    (now n : ℕ) (xs ys : List Event) → recent now n (xs ++ ys) ≡ recent now n xs ++ recent now n ys
recent-append now n [] ys = refl
recent-append now n (x ∷ xs) ys = elim (Bool-cases (is_expired now n x)) [
  | inl e ↦ rw e (recent-append now n xs ys)
  | inr e ↦ rw e (ap (λ r. x ∷ r) (recent-append now n xs ys))
]

-- What has expired stays so.
pub recent-recent :
    (now at_time n : ℕ) (es : List Event)
    → now ≤ at_time
    → recent at_time n (recent now n es) ≡ recent at_time n es
recent-recent now at_time n [] h = refl
recent-recent now at_time n (e ∷ es) h = elim (Bool-cases (is_expired now n e)) [
  | inl x ↦
      let y : is_expired at_time n e ≡ true = ground arith in
      rw (x, y) (recent-recent now at_time n es h)
  | inr x ↦ elim (Bool-cases (is_expired at_time n e)) [
    | inl y ↦ rw (x, y) (recent-recent now at_time n es h)
    | inr y ↦ rw (x, y) (ap (λ r. e ∷ r) (recent-recent now at_time n es h))
  ]
]

module _ (l : MovingWindowRateLimiter) (id j : String) (now : ℕ) (other : j ≢ id) where
  others-get_remaining : lookup j (get_remaining_capacity l id now).1.windows ≡ lookup j l.windows
  unfolding get_remaining_capacity
  others-get_remaining = elim (Option-cases (lookup id l.windows)) [
    | inl e ↦ rw e (lookup-insert_ne id j _ l.windows other)
    | inr (w, e) ↦ rw e (lookup-insert_ne id j _ l.windows other)
  ]

  others-record_cost :
      (k : MovingWindowRateLimiter) (e : Event) (o : Option Window)
      → lookup j (record_cost k id e o).windows ≡ lookup j k.windows
  unfolding record_cost
  others-record_cost k e none = refl
  others-record_cost k e (some w) = lookup-insert_ne id j _ k.windows other

  -- A call leaves the windows of the other identifiers.
  pub others-try_acquire :
      (cost later : ℕ) → lookup j (try_acquire l id cost now later).1.windows ≡ lookup j l.windows
  unfolding try_acquire check_capacity
  others-try_acquire cost later = elim (Bool-cases (cost == 0)) [
    | inl x ↦ rw x refl
    | inr x ↦ elim (Bool-cases (leb cost (get_remaining_capacity l id now).0)) [
      | inl y ↦ rw (x, y) (others-record_cost _ _ _ ∙ others-get_remaining)
      | inr y ↦ rw (x, y) others-get_remaining
    ]
  ]

module _ (l : MovingWindowRateLimiter) (id : String) (now : ℕ) where
  settings-get_remaining :
      ((get_remaining_capacity l id now).1.max_cost ≡ l.max_cost)
      × ((get_remaining_capacity l id now).1.window_length ≡ l.window_length)
  unfolding get_remaining_capacity
  settings-get_remaining = elim (Option-cases (lookup id l.windows)) [
    | inl e ↦ rw e (refl, refl)
    | inr (w, e) ↦ rw e (refl, refl)
  ]

  settings-record_cost :
      (k : MovingWindowRateLimiter) (e : Event) (o : Option Window)
      → ((record_cost k id e o).max_cost ≡ k.max_cost)
        × ((record_cost k id e o).window_length ≡ k.window_length)
  unfolding record_cost
  settings-record_cost k e none = (refl, refl)
  settings-record_cost k e (some w) = (refl, refl)

  -- A call leaves the settings of the limiter.
  pub settings-try_acquire :
      (cost later : ℕ)
      → ((try_acquire l id cost now later).1.max_cost ≡ l.max_cost)
        × ((try_acquire l id cost now later).1.window_length ≡ l.window_length)
  unfolding try_acquire check_capacity
  settings-try_acquire cost later =
      let (a, b) = settings-get_remaining in
      elim (Bool-cases (cost == 0)) [
        | inl x ↦ rw x (refl, refl)
        | inr x ↦ elim (Bool-cases (leb cost (get_remaining_capacity l id now).0)) [
          | inl y ↦
              let (c, d) = settings-record_cost (get_remaining_capacity l id now).1 _ _ in
              rw (x, y) (c ∙ a, d ∙ b)
          | inr y ↦ rw (x, y) (a, b)
        ]
      ]
