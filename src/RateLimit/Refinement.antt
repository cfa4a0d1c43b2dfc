-- ===== src/RateLimit/Refinement.antt =====
-- The limiter decides as one that forgets nothing: its windows stand for the whole history of what
-- was granted.
use zsequencer.Prelude.{
  ℕ, ◌+◌, ◌≤◌, ◌≡◌, ◌≢◌, refl, sym, ap, ◌∙◌, Bool, true, false, List, [], ◌∷◌, ◌++◌, String, arith,
  ◌==◌, leb, str_eq, eq_iff, Bool-cases, inl, inr, if◌then◌else◌,
}
use zsequencer.RateLimit.{MovingWindowRateLimiter, Event, try_acquire, total_cost}
use zsequencer.RateLimit.Expiry.{recent}
use zsequencer.RateLimit.Acquire.{
  IsValid, events_in, events_of, recent_cost, try_acquire_lem, try_acquire-IsValid,
}
use zsequencer.RateLimit.Frame.{
  recent-append, recent-recent, others-try_acquire, settings-try_acquire,
}

-- What was granted to each identifier, in order.
abbrev pub History : Type 0
History = String → List Event

-- The decision on the whole history, with the history that follows.
unfoldable pub grant : ℕ → ℕ → History → String → ℕ → ℕ → ℕ → Bool × History
grant max_cost window_length h identifier cost now later =
    let e : Event = record { time = later; cost = cost } in
    if cost == 0
    then (true, h)
    else if leb (total_cost (recent now window_length (h identifier)) + cost) max_cost
    then (true, λ j. if str_eq j identifier then h j ++ e ∷ [] else h j)
    else (false, h)

-- A call of `try_acquire` with its two readings of the clock.
pub record Call : Type 0 where
  pub identifier : String
  pub cost : ℕ
  pub now : ℕ
  pub later : ℕ

-- The answers to a run of calls, of the limiter and by the history.
unfoldable pub answers : MovingWindowRateLimiter → List Call → List Bool
answers l [] = []
answers l (c ∷ calls) =
    let (granted, l') = try_acquire l c.identifier c.cost c.now c.later in
    granted ∷ answers l' calls

unfoldable pub answers_by_history : ℕ → ℕ → History → List Call → List Bool
unfolding grant
answers_by_history max_cost window_length h [] = []
answers_by_history max_cost window_length h (c ∷ calls) =
    let (granted, h') = grant max_cost window_length h c.identifier c.cost c.now c.later in
    granted ∷ answers_by_history max_cost window_length h' calls

-- The clock does not go back from one reading to the next.
abbrev pub InOrder : ℕ → List Call → Type 0
InOrder clock [] = Unit {0}
InOrder clock (c ∷ calls) = (clock ≤ c.now) × (c.now ≤ c.later) × InOrder c.later calls

-- From a reading of the clock on, the windows have the recent events of the history.
abbrev pub IsHistoryOf : ℕ → History → MovingWindowRateLimiter → ℕ → Type 0
IsHistoryOf window_length h l clock =
    (j : String) (now : ℕ)
    → clock ≤ now
    → recent now window_length (events_of l j) ≡ recent now window_length (h j)

-- The windows after a call have the same recent events as the history, if they had before.
kept_same :
    (now n w : ℕ) (es hs after added : List Event)
    → now ≤ n
    → recent n w es ≡ recent n w hs
    → after ≡ recent now w es ++ added
    → recent n w after ≡ recent n w (hs ++ added)
kept_same now n w es hs after added k same h =
    ap (recent n w) h
    ∙ recent-append n w (recent now w es) added
    ∙ ap (λ r. r ++ recent n w added) (recent-recent now n w es k ∙ same)
    ∙ sym (recent-append n w hs added)

same_id : (j id : String) → str_eq j id ≡ true → j ≡ id
same_id j id s = ground (arith, eq_iff j id)

other_id : (j id : String) → str_eq j id ≡ false → j ≢ id
other_id j id s = ground (arith, eq_iff j id)

module _ (l : MovingWindowRateLimiter) (h : History) (clock : ℕ) (v : IsValid l clock)
    (stands : IsHistoryOf l.window_length h l clock) where
  -- A call of positive cost: the answer, and what the history is then.
  positive_call :
      (id : String) (cost now later : ℕ)
      → 1 ≤ cost
      → clock ≤ now
      → now ≤ later
      → ((try_acquire l id cost now later).0
          ≡ (grant l.max_cost l.window_length h id cost now later).0)
        × IsHistoryOf l.window_length
            (grant l.max_cost l.window_length h id cost now later).1
            (try_acquire l id cost now later).1
            later
  unfolding grant
  positive_call id cost now later p a b =
      let (granted, after) = try_acquire_lem l id now clock v cost later p in
      let e : Event = record { time = later; cost = cost } in
      let after_call = (try_acquire l id cost now later).1 in
      let nz : (cost == 0) ≡ false = ground arith in
      let total : recent_cost l id now ≡ total_cost (recent now l.window_length (h id)) =
        ap total_cost (stands id now a) in
      elim (Bool-cases (leb (total_cost (recent now l.window_length (h id)) + cost) l.max_cost)) [
        | inl g ↦
            let granted' = rw (total, g) at granted in
            let after' = rw granted' at after in
            rw (nz, g)
              (
                granted',
                λ j n k. elim (Bool-cases (str_eq j id)) [
                  | inl s ↦ rw s (
                      ap (λ q. recent n l.window_length (events_of after_call q)) (same_id j id s)
                      ∙ kept_same now n l.window_length (events_of l id) (h id) _ (e ∷ [])
                          (omega arith) (stands id n (omega arith)) after'
                      ∙ ap (λ q. recent n l.window_length (h q ++ e ∷ [])) (sym (same_id j id s)))
                  | inr s ↦ rw s (
                      ap (λ o. recent n l.window_length (events_in o))
                        (others-try_acquire l id j now (other_id j id s) cost later)
                      ∙ stands j n (omega arith))
                ],
              )
        | inr g ↦
            let granted' = rw (total, g) at granted in
            let after' = rw granted' at after in
            rw (nz, g)
              (
                granted',
                λ j n k. elim (Bool-cases (str_eq j id)) [
                  | inl s ↦
                      ap (λ q. recent n l.window_length (events_of after_call q)) (same_id j id s)
                      ∙ ap (recent n l.window_length) after'
                      ∙ recent-recent now n l.window_length (events_of l id) (omega arith)
                      ∙ stands id n (omega arith)
                      ∙ ap (λ q. recent n l.window_length (h q)) (sym (same_id j id s))
                  | inr s ↦
                      ap (λ o. recent n l.window_length (events_in o))
                        (others-try_acquire l id j now (other_id j id s) cost later)
                      ∙ stands j n (omega arith)
                ],
              )
      ]

  -- A call, of any cost.
  one_call :
      (id : String) (cost now later : ℕ)
      → clock ≤ now
      → now ≤ later
      → ((try_acquire l id cost now later).0
          ≡ (grant l.max_cost l.window_length h id cost now later).0)
        × IsHistoryOf l.window_length
            (grant l.max_cost l.window_length h id cost now later).1
            (try_acquire l id cost now later).1
            later
  unfolding grant try_acquire
  one_call id cost now later a b = elim (Bool-cases (cost == 0)) [
    | inl z ↦ rw z (refl, λ j n k. stands j n (omega arith))
    | inr z ↦ positive_call id cost now later (ground arith) a b
  ]

-- The limiter, which keeps sums and drops expired events, answers a run of calls of
-- `try_acquire` as the history of all that was granted does, when its windows are valid, they
-- have the recent events of the history to start with, and the clock does not go back from one
-- reading to the next.
pub answers_by_history_lem :
    (l : MovingWindowRateLimiter) (h : History) (clock : ℕ) (calls : List Call)
    → IsValid l clock
    → IsHistoryOf l.window_length h l clock
    → InOrder clock calls
    → answers l calls ≡ answers_by_history l.max_cost l.window_length h calls
unfolding answers answers_by_history
answers_by_history_lem l h clock [] v stands order = refl
answers_by_history_lem l h clock (c ∷ calls) v stands (a, b, order) =
    let (same, stands') = one_call l h clock v stands c.identifier c.cost c.now c.later a b in
    let (m, w) = settings-try_acquire l c.identifier c.now c.cost c.later in
    let v' = try_acquire-IsValid l c.identifier clock c.cost c.now c.later a b v in
    let h' = (grant l.max_cost l.window_length h c.identifier c.cost c.now c.later).1 in
    let rest =
      answers_by_history_lem (try_acquire l c.identifier c.cost c.now c.later).1 h' c.later calls v'
        (rw w stands') order in
    ap (λ g. g ∷ answers (try_acquire l c.identifier c.cost c.now c.later).1 calls) same
    ∙ ap (λ r. (grant l.max_cost l.window_length h c.identifier c.cost c.now c.later).0 ∷ r)
        (rw (m, w) at rest)
