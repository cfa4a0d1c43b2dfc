-- ===== src/Tests/Limiter.antt =====
-- The rate limiter run on two requests of one identifier.
use zsequencer.Prelude.{List, false, ◌≡◌, refl, true, [], ◌∷◌, arith}
use zsequencer.Bisect.{bisect}
use zsequencer.Dict.{lookup, insert}
use zsequencer.RateLimit.{
  MovingWindowRateLimiter, try_acquire, get_remaining_capacity, total_cost, check_capacity, expire,
  expire_index,
}
use zsequencer.RateLimit.Refinement.{Call, answers, answers_by_history, answers_by_history_lem}
use zsequencer.RateLimit.Acquire.{IsValid, events_of, try_acquire-IsValid}

-- At most ten bytes in five ticks.
abbrev fresh_limiter : MovingWindowRateLimiter
fresh_limiter = record { max_cost = 10; window_length = 5; windows = [] }

fresh_limiter-IsValid : IsValid fresh_limiter 2
unfolding lookup
fresh_limiter-IsValid = record { exact = λ id w e. absurd cc; past = λ id w e. absurd cc }

-- The limiter after a request of four bytes at tick 2.
abbrev used_limiter : MovingWindowRateLimiter
used_limiter = (try_acquire fresh_limiter "n" 4 2 2).1

try_acquire-IsValid_example : IsValid (try_acquire fresh_limiter "n" 4 2 2).1 2
try_acquire-IsValid_example =
    try_acquire-IsValid fresh_limiter "n" 2 4 2 2 (omega arith) (omega arith) fresh_limiter-IsValid

used_limiter-IsValid : IsValid used_limiter 2
used_limiter-IsValid =
    try_acquire-IsValid fresh_limiter "n" 2 4 2 2 (omega arith) (omega arith) fresh_limiter-IsValid

granted : (try_acquire fresh_limiter "n" 4 2 2).0 ≡ true
unfolding try_acquire check_capacity get_remaining_capacity lookup
granted = refl

-- Four requests: the second is too large beside the first, and the last is after the first expired.
abbrev requests : List Call
requests =
    record { identifier = "n"; cost = 6; now = 2; later = 2 }
    ∷ record { identifier = "n"; cost = 5; now = 3; later = 3 }
    ∷ record { identifier = "m"; cost = 10; now = 3; later = 4 }
    ∷ record { identifier = "n"; cost = 5; now = 9; later = 9 }
    ∷ []

the_answers : answers fresh_limiter requests ≡ true ∷ false ∷ true ∷ true ∷ []
unfolding answers try_acquire check_capacity get_remaining_capacity lookup insert expire
    expire_index bisect total_cost
the_answers = refl

answers_by_history_example :
    answers fresh_limiter requests ≡ answers_by_history 10 5 (events_of fresh_limiter) requests
answers_by_history_example =
    answers_by_history_lem fresh_limiter (events_of fresh_limiter) 2 requests fresh_limiter-IsValid
      (λ j n k. refl)
      (
        omega arith,
        omega arith,
        (omega arith, omega arith, (omega arith, omega arith, (omega arith, omega arith, tt))),
      )
