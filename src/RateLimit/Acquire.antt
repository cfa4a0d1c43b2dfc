-- ===== src/RateLimit/Acquire.antt =====
-- When a cost is admitted, and what the limiter holds then.
use zsequencer.Prelude.{
  ℕ, ◌+◌, ◌-◌, ◌≤◌, ◌≡◌, refl, ap, sym, ◌∙◌, true, false, Option, none, some, List, [], ◌∷◌, ◌++◌,
  String, leb, leb→le, ◌==◌, arith, if◌then◌else◌, Bool-cases, Option-cases, inl, inr,
}
use zsequencer.Dict.{lookup, insert, lookup-insert, lookup-insert_self}
use zsequencer.RateLimit.{
  Event, Window, MovingWindowRateLimiter, total_cost, expire, get_remaining_capacity, try_acquire,
  check_capacity, record_cost,
}
use zsequencer.RateLimit.Expiry.{
  IsSorted, AllFrom, IsExact, recent, events-expire, expire-IsExact, total_cost-append,
}

-- No event is later than the clock.
abbrev pub AllTo : ℕ → List Event → Type 0
AllTo t [] = Unit {0}
AllTo t (e ∷ es) = (e.time ≤ t) × AllTo t es

-- At a reading of the clock every window is exact and holds no later event.
pub record IsValid (l : MovingWindowRateLimiter) (clock : ℕ) : Type 0 where
  pub exact : (id : String) (w : Window) → lookup id l.windows ≡ some w → IsExact w
  pub past : (id : String) (w : Window) → lookup id l.windows ≡ some w → AllTo clock w.events

-- The events recorded for an identifier.
abbrev pub events_in : Option Window → List Event
events_in none = []
events_in (some w) = w.events

abbrev pub events_of : MovingWindowRateLimiter → String → List Event
events_of l id = events_in (lookup id l.windows)

-- The cost of the events that have not expired.
abbrev pub recent_cost : MovingWindowRateLimiter → String → ℕ → ℕ
recent_cost l id now = total_cost (recent now l.window_length (events_of l id))

module _ (l : MovingWindowRateLimiter) (id : String) (now clock : ℕ) (v : IsValid l clock) where
  -- With every window valid at the clock, the capacity reported for an identifier is the
  -- maximum less the cost of its recent events, or 0.
  pub get_remaining_capacity_lem :
      (get_remaining_capacity l id now).0 ≡ l.max_cost - recent_cost l id now
  unfolding get_remaining_capacity
  get_remaining_capacity_lem = elim (Option-cases (lookup id l.windows)) [
    | inl e ↦ rw e (unfold total_cost in omega arith)
    | inr (w, e) ↦
        let x = expire-IsExact now l.window_length w (v.exact id w e) in
        let y = events-expire now l.window_length w (v.exact id w e) in
        rw e (ap (λ (t : ℕ). l.max_cost - t) (x.summed ∙ ap total_cost y))
  ]

  pub events-get_remaining :
      events_of (get_remaining_capacity l id now).1 id ≡ recent now l.window_length (events_of l id)
  unfolding get_remaining_capacity
  events-get_remaining = elim (Option-cases (lookup id l.windows)) [
    | inl e ↦ rw e (rw lookup-insert_self refl)
    | inr (w, e) ↦
        rw e (rw lookup-insert_self (events-expire now l.window_length w (v.exact id w e)))
  ]

  -- After a reading of the capacity the identifier has an exact window of its recent events.
  window_after :
      (w : Window) × (lookup id (get_remaining_capacity l id now).1.windows ≡ some w)
      × (w.events ≡ recent now l.window_length (events_of l id))
      × IsExact w
  unfolding get_remaining_capacity
  window_after = elim (Option-cases (lookup id l.windows)) [
    | inl e ↦ (
      record { events = []; costs_sum = 0 },
      rw e (lookup-insert_self id _ l.windows),
      rw e refl,
      record { summed = unfold total_cost in refl; sorted = tt },
    )
    | inr (w, e) ↦ (
      expire now l.window_length w,
      rw e (lookup-insert_self id _ l.windows),
      rw e (events-expire now l.window_length w (v.exact id w e)),
      expire-IsExact now l.window_length w (v.exact id w e),
    )
  ]

  check_capacity_lem :
      (cost : ℕ)
      → 1 ≤ cost
      → check_capacity l id cost now
        ≡ (leb (recent_cost l id now + cost) l.max_cost, (get_remaining_capacity l id now).1)
  unfolding check_capacity
  check_capacity_lem cost c = ground (arith, get_remaining_capacity_lem)

  -- With every window valid at the clock, a positive cost is granted exactly if it fits beside
  -- the recent events of the identifier; it is recorded then, and the expired events are gone
  -- either way.
  pub try_acquire_lem :
      (cost later : ℕ)
      → 1 ≤ cost
      → let (granted, l') = try_acquire l id cost now later in
        let kept = recent now l.window_length (events_of l id) in
        (granted ≡ leb (recent_cost l id now + cost) l.max_cost)
        × (events_of l' id
            ≡ (if granted then kept ++ record { time = later; cost = cost } ∷ [] else kept))
  unfolding try_acquire
  try_acquire_lem cost later c =
      let (w, e, x, y) = window_after in
      let nz : (cost == 0) ≡ false = ground arith in
      elim (Bool-cases (leb (recent_cost l id now + cost) l.max_cost)) [
        | inl g ↦
            rw (nz, check_capacity_lem cost c, g, e) (refl, rw (lookup-insert_self) (rw x refl))
        | inr g ↦ rw (nz, check_capacity_lem cost c, g) (refl, rw e x)
      ]

total_cost-one : (e : Event) → total_cost (e ∷ []) ≡ e.cost
unfolding total_cost
total_cost-one e = omega arith

-- With every window valid at the clock, a granted positive cost leaves recorded for the
-- identifier at most the maximum cost.
pub try_acquire-le-max :
    (l : MovingWindowRateLimiter) (id : String) (now clock cost later : ℕ)
    → IsValid l clock
    → 1 ≤ cost
    → (try_acquire l id cost now later).0 ≡ true
    → total_cost (events_of (try_acquire l id cost now later).1 id) ≤ l.max_cost
try_acquire-le-max l id now clock cost later v c g =
    let (p, q) = try_acquire_lem l id now clock v cost later c in
    let kept = recent now l.window_length (events_of l id) in
    let e : Event = record { time = later; cost = cost } in
    rw (q, g)
      (omega (arith, total_cost-append kept (e ∷ []), total_cost-one e, leb→le _ _ (sym p ∙ g)))

AllTo-recent : (now n t : ℕ) (es : List Event) → AllTo t es → AllTo t (recent now n es)
AllTo-recent now n t [] a = tt
AllTo-recent now n t (e ∷ es) a = ground (arith, AllTo-recent now n t es a.1)

AllTo-le : (t u : ℕ) (es : List Event) → t ≤ u → AllTo t es → AllTo u es
AllTo-le t u [] h a = tt
AllTo-le t u (e ∷ es) h a = (omega arith, AllTo-le t u es h a.1)

AllTo-append :
    (t : ℕ) (es : List Event) (e : Event) → e.time ≤ t → AllTo t es → AllTo t (es ++ e ∷ [])
AllTo-append t [] e h a = (h, tt)
AllTo-append t (x ∷ es) e h a = (a.0, AllTo-append t es e h a.1)

AllFrom-append :
    (t : ℕ) (es : List Event) (e : Event) → t ≤ e.time → AllFrom t es → AllFrom t (es ++ e ∷ [])
AllFrom-append t [] e h a = (h, tt)
AllFrom-append t (x ∷ es) e h a = (a.0, AllFrom-append t es e h a.1)

IsSorted-append :
    (es : List Event) (e : Event) → AllTo e.time es → IsSorted es → IsSorted (es ++ e ∷ [])
IsSorted-append [] e a s = (tt, tt)
IsSorted-append (x ∷ es) e a s = (AllFrom-append x.time es e a.0 s.0, IsSorted-append es e a.1 s.1)

-- A window written for one identifier, in a valid limiter.
write-IsValid :
    (l : MovingWindowRateLimiter) (clock : ℕ) (id : String) (w : Window)
    → IsValid l clock
    → IsExact w
    → AllTo clock w.events
    → IsValid (record l { windows = insert id w l.windows }) clock
write-IsValid l clock id w v x a = record {
  exact = λ j u h. ground (arith, lookup-insert id j w l.windows, v.exact j u);
  past = λ j u h. ground (arith, lookup-insert id j w l.windows, v.past j u);
}

IsValid-le : (l : MovingWindowRateLimiter) (t u : ℕ) → t ≤ u → IsValid l t → IsValid l u
IsValid-le l t u h v = record {
  exact = v.exact;
  past = λ j w e. AllTo-le t u w.events h (v.past j w e);
}

empty-IsExact : IsExact (record { events = []; costs_sum = 0 })
unfolding total_cost
empty-IsExact = record { summed = refl; sorted = tt }

pub get_remaining_capacity-IsValid :
    (l : MovingWindowRateLimiter) (id : String) (now clock : ℕ)
    → clock ≤ now
    → IsValid l clock
    → IsValid (get_remaining_capacity l id now).1 now
unfolding get_remaining_capacity
get_remaining_capacity-IsValid l id now clock h v = elim (Option-cases (lookup id l.windows)) [
  | inl e ↦ rw e (write-IsValid l now id _ (IsValid-le l clock now h v) empty-IsExact tt)
  | inr (w, e) ↦
      let x = v.exact id w e in
      rw e (
        write-IsValid l now id _ (IsValid-le l clock now h v)
          (expire-IsExact now l.window_length w x)
          (rw (events-expire now l.window_length w x) (
            AllTo-recent now l.window_length now w.events
              (AllTo-le clock now w.events h (v.past id w e)))))
]

appended-IsExact :
    (w : Window) (e : Event)
    → AllTo e.time w.events
    → IsExact w
    → IsExact (record { events = w.events ++ e ∷ []; costs_sum = w.costs_sum + e.cost })
appended-IsExact w e a x = record {
  summed = omega (arith, x.summed, total_cost-append w.events (e ∷ []), total_cost-one e);
  sorted = IsSorted-append w.events e a x.sorted;
}

record_cost-IsValid :
    (l : MovingWindowRateLimiter) (id : String) (e : Event) (clock : ℕ) (o : Option Window)
    → lookup id l.windows ≡ o
    → clock ≤ e.time
    → IsValid l clock
    → IsValid (record_cost l id e o) e.time
unfolding record_cost
record_cost-IsValid l id e clock none q h v = IsValid-le l clock e.time h v
record_cost-IsValid l id e clock (some w) q h v =
    let a = AllTo-le clock e.time w.events h (v.past id w q) in
    write-IsValid l e.time id _ (IsValid-le l clock e.time h v)
      (appended-IsExact w e a (v.exact id w q)) (AllTo-append e.time w.events e (omega arith) a)

-- A request keeps every window valid, with an exact sum and its events in order, as long as the
-- clock does not go back.
pub try_acquire-IsValid :
    (l : MovingWindowRateLimiter) (id : String) (clock cost now later : ℕ)
    → clock ≤ now
    → now ≤ later
    → IsValid l clock
    → IsValid (try_acquire l id cost now later).1 later
unfolding try_acquire check_capacity
try_acquire-IsValid l id clock cost now later h k v =
    let r = get_remaining_capacity-IsValid l id now clock h v in
    elim (Bool-cases (cost == 0)) [
      | inl x ↦ rw x (IsValid-le l clock later (omega arith) v)
      | inr x ↦ elim (Bool-cases (leb cost (get_remaining_capacity l id now).0)) [
        | inl y ↦
            rw (x, y)
              (record_cost-IsValid _ id (record { time = later; cost = cost }) now _ refl k r)
        | inr y ↦ rw (x, y) (IsValid-le _ now later k r)
      ]
    ]
