-- ===== src/RateLimit/Expiry.antt =====
-- Expiring the events that are older than the window.
use zsequencer.Prelude.{
  ℕ, zero, suc, ◌+◌, ◌≤◌, ◌<◌, ◌≡◌, refl, ap, sym, ◌∙◌, true, false, List, [], ◌∷◌, ◌++◌, ltb,
  length, get_elem?, take, drop, take-append-drop, arith, if◌then◌else◌, Bool-cases, inl, inr,
}
use zsequencer.Bisect.{IsMonotone, bisect-Splits}
use zsequencer.RateLimit.{
  Event, Window, total_cost, is_expired, is_expired_at, expire_index, expire,
}

-- Every event is at or after a time.
abbrev pub AllFrom : ℕ → List Event → Type 0
AllFrom t [] = Unit {0}
AllFrom t (e ∷ es) = (t ≤ e.time) × AllFrom t es

-- The events are in the order of their times.
abbrev pub IsSorted : List Event → Type 0
IsSorted [] = Unit {0}
IsSorted (e ∷ es) = AllFrom e.time es × IsSorted es

module _ (now window_length : ℕ) where
  -- The events that have not expired.
  abbrev pub recent : List Event → List Event
  recent [] = []
  recent (e ∷ es) = if is_expired now window_length e then recent es else e ∷ recent es

  later_expired :
      (t : ℕ) (es : List Event) (j : ℕ)
      → AllFrom t es
      → is_expired_at now window_length (get_elem? es j) ≡ true
      → t + window_length < now
  later_expired t [] j a h = cc
  later_expired t (e ∷ es) zero a h = ground arith
  later_expired t (e ∷ es) (suc j) a h = later_expired t es j a.1 h

  expired-IsMonotone :
      (es : List Event)
      → IsSorted es
      → IsMonotone (λ i. is_expired_at now window_length (get_elem? es i))
  expired-IsMonotone [] s i j h t = t
  expired-IsMonotone (e ∷ es) s zero zero h t = t
  expired-IsMonotone (e ∷ es) s zero (suc j) h t = ground (arith, later_expired e.time es j s.0 t)
  expired-IsMonotone (e ∷ es) s (suc i) zero h t = absurd (omega arith)
  expired-IsMonotone (e ∷ es) s (suc i) (suc j) h t = expired-IsMonotone es s.1 i j (omega arith) t

  recent_all :
      (es : List Event)
      → ((i : ℕ) → i < length es → is_expired_at now window_length (get_elem? es i) ≡ false)
      → recent es ≡ es
  recent_all [] h = refl
  recent_all (e ∷ es) h =
      rw (h 0 (omega arith)) (ap (λ r. e ∷ r) (recent_all es (λ i k. h (suc i) (omega arith))))

  drop-recent :
      (r : ℕ) (es : List Event)
      → ((i : ℕ) → i < r → is_expired_at now window_length (get_elem? es i) ≡ true)
      → ((i : ℕ) → r ≤ i → i < length es → is_expired_at now window_length (get_elem? es i) ≡ false)
      → drop r es ≡ recent es
  drop-recent zero es h k = sym (recent_all es (λ i l. k i (omega arith) l))
  drop-recent (suc r) [] h k = refl
  drop-recent (suc r) (e ∷ es) h k = rw (h 0 (omega arith)) (
      drop-recent r es (λ i l. h (suc i) (omega arith))
        (λ i l m. k (suc i) (omega arith) (omega arith)))

  drop-expire_index :
      (es : List Event) → IsSorted es → drop (expire_index now window_length es) es ≡ recent es
  unfolding expire_index
  drop-expire_index es s =
      let p =
        bisect-Splits (λ i. is_expired_at now window_length (get_elem? es i)) (length es)
          (expired-IsMonotone es s) in
      drop-recent _ es (λ i l. p.holds_below i (omega arith) l) (λ i l m. p.fails_above i l m)

pub total_cost-append : (xs ys : List Event) → total_cost (xs ++ ys) ≡ total_cost xs + total_cost ys
unfolding total_cost
total_cost-append [] ys = omega arith
total_cost-append (x ∷ xs) ys = omega (arith, total_cost-append xs ys)

-- The sum of a window is the cost of its events, which are in order.
pub record IsExact (w : Window) : Type 0 where
  pub summed : w.costs_sum ≡ total_cost w.events
  pub sorted : IsSorted w.events

drop-zero : (r : ℕ) (es : List Event) → ltb 0 r ≡ false → drop r es ≡ es
drop-zero zero es h = refl
drop-zero (suc r) es h = absurd (ground arith)

AllFrom-recent : (now l t : ℕ) (es : List Event) → AllFrom t es → AllFrom t (recent now l es)
AllFrom-recent now l t [] a = tt
AllFrom-recent now l t (e ∷ es) a = ground (arith, AllFrom-recent now l t es a.1)

recent-IsSorted : (now l : ℕ) (es : List Event) → IsSorted es → IsSorted (recent now l es)
recent-IsSorted now l [] s = tt
recent-IsSorted now l (e ∷ es) s =
    ground (arith, recent-IsSorted now l es s.1, AllFrom-recent now l e.time es s.0)

module _ (now window_length : ℕ) (w : Window) (v : IsExact w) where
  -- Expiring keeps exactly the recent events.
  pub events-expire : (expire now window_length w).events ≡ recent now window_length w.events
  unfolding expire
  events-expire = elim (Bool-cases (ltb 0 (expire_index now window_length w.events))) [
    | inl x ↦ rw x (drop-expire_index now window_length w.events v.sorted)
    | inr x ↦ rw x (
        sym (drop-zero (expire_index now window_length w.events) w.events x)
        ∙ drop-expire_index now window_length w.events v.sorted)
  ]

  summed-expire :
      (expire now window_length w).costs_sum ≡ total_cost (expire now window_length w).events
  unfolding expire
  summed-expire =
      let r = expire_index now window_length w.events in
      let whole : total_cost (take r w.events) + total_cost (drop r w.events)
          ≡ total_cost w.events =
        sym (total_cost-append (take r w.events) (drop r w.events))
        ∙ ap total_cost (take-append-drop r w.events) in
      elim (Bool-cases (ltb 0 r)) [ inl x ↦ rw x (omega (arith, v.summed)) | inr x ↦ rw x v.summed ]

  -- Expiring keeps the sum exact and the order.
  pub expire-IsExact : IsExact (expire now window_length w)
  expire-IsExact = record {
    summed = summed-expire;
    sorted = rw events-expire (recent-IsSorted now window_length w.events v.sorted);
  }
