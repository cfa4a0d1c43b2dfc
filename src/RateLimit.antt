-- ===== src/RateLimit.antt =====
-- The moving-window rate limiter (common/rate_limit.py). Costs are whole bytes, and times are
-- readings of the monotonic clock in whole ticks; each call of `perf_counter` is an argument.
pub mod Expiry
pub mod Acquire
pub mod Later
pub mod Frame
pub mod Refinement
use zsequencer.Prelude.{
  ℕ, ◌+◌, ◌-◌, Bool, true, false, Option, none, some, List, [], ◌∷◌, ◌++◌, String, ltb, leb, ◌==◌,
  length, get_elem?, take, drop, if◌then◌else◌,
}
use zsequencer.Dict.{Dict, lookup, insert}
use zsequencer.Bisect.{bisect}

-- An entry of `_cost_history_by_id`: when, and at what cost.
pub record Event : Type 0 where
  pub time : ℕ
  pub cost : ℕ

-- The entries of one identifier in `_cost_history_by_id` and `_costs_sum_by_id`, which are always
-- written together.
pub record Window : Type 0 where
  pub events : List Event
  pub costs_sum : ℕ

pub record MovingWindowRateLimiter : Type 0 where
  pub max_cost : ℕ
  pub window_length : ℕ
  pub windows : Dict Window

-- `sum(cost for _, cost in events)`
unfoldable pub total_cost : List Event → ℕ
total_cost [] = 0
total_cost (e ∷ es) = e.cost + total_cost es

-- `events[i][0] < current_time - window_seconds`
abbrev pub is_expired : ℕ → ℕ → Event → Bool
is_expired now window_length e = ltb (e.time + window_length) now

abbrev pub is_expired_at : ℕ → ℕ → Option Event → Bool
is_expired_at now window_length none = false
is_expired_at now window_length (some e) = is_expired now window_length e

-- `bisect_left(events, expiration_time)`
unfoldable pub expire_index : ℕ → ℕ → List Event → ℕ
expire_index now window_length events =
    bisect (λ i. is_expired_at now window_length (get_elem? events i)) (length events)

-- Dropping the expired events from a window.
unfoldable pub expire : ℕ → ℕ → Window → Window
unfolding total_cost
expire now window_length w =
    let index = expire_index now window_length w.events in
    if ltb 0 index
    then record {
      events = drop index w.events;
      costs_sum = w.costs_sum - total_cost (take index w.events);
    }
    else w

unfoldable pub update_max_cost : MovingWindowRateLimiter → ℕ → MovingWindowRateLimiter
update_max_cost l max_cost = record l { max_cost = max_cost }

-- The rest of `get_remaining_capacity` for the window of the identifier, if it has one.
remaining_in : MovingWindowRateLimiter → String → ℕ → Option Window → ℕ × MovingWindowRateLimiter
remaining_in l identifier now none = (
  l.max_cost,
  record l { windows = insert identifier (record { events = []; costs_sum = 0 }) l.windows },
)
remaining_in l identifier now (some w) =
    let w' = expire now l.window_length w in
    (l.max_cost - w'.costs_sum, record l { windows = insert identifier w' l.windows })

-- The capacity left, with the limiter that the call leaves; `max(0.0, …)` is the subtraction of ℕ.
unfoldable pub get_remaining_capacity :
    MovingWindowRateLimiter → String → ℕ → ℕ × MovingWindowRateLimiter
unfolding remaining_in
get_remaining_capacity l identifier now =
    remaining_in l identifier now (lookup identifier l.windows)

unfoldable pub check_capacity :
    MovingWindowRateLimiter → String → ℕ → ℕ → Bool × MovingWindowRateLimiter
check_capacity l identifier cost now =
    let (remaining, l') = get_remaining_capacity l identifier now in
    if cost == 0 then (true, l) else (leb cost remaining, l')

-- An event appended to the window of an identifier; the window is there after `check_capacity`.
record_cost : MovingWindowRateLimiter → String → Event → Option Window → MovingWindowRateLimiter
record_cost l identifier e none = l
record_cost l identifier e (some w) =
    let w' : Window = record { events = w.events ++ e ∷ []; costs_sum = w.costs_sum + e.cost } in
    record l { windows = insert identifier w' l.windows }

-- `now` is the clock in `get_remaining_capacity`, and `later` the clock after it.
unfoldable pub try_acquire :
    MovingWindowRateLimiter → String → ℕ → ℕ → ℕ → Bool × MovingWindowRateLimiter
unfolding record_cost
try_acquire l identifier cost now later =
    let (has_capacity, l') = check_capacity l identifier cost now in
    let l'' =
      record_cost l' identifier (record { time = later; cost = cost })
        (lookup identifier l'.windows) in
    if cost == 0 then (true, l) else if has_capacity then (true, l'') else (false, l')
