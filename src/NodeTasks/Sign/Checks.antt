-- ===== src/NodeTasks/Sign/Checks.antt =====
-- What a node has checked of a sync point that it signs.
use zsequencer.Prelude.{
  ℕ, ◌+◌, ◌≤◌, ◌<◌, ◌≡◌, refl, sym, ◌∙◌, true, not, Option, none, some, String, arith, eq_iff, ◌==◌,
  ltb, str_eq, Bool-cases, inl, inr, Option-cases, false,
}
use zsequencer.State.{
  State, state_of_name, OperationalState, finalized, operational, is_state_before_or_equal,
}
use zsequencer.Errors.{
  ok, >>=-eq-ok, raise_if-ok, invalid_request, ok-eq-ok, raise_if, Result-cases, ◌>>=◌,
}
use zsequencer.Batch.{Batch, BatchRecord}
use zsequencer.BatchSequence.{
  BatchSequence, get_batch_or_empty, get_last_or_empty, get_or_empty, with_state, get_state,
}
use zsequencer.Network.{Network}
use zsequencer.Db.{App, InMemoryDb, app_of}
use zsequencer.Db.Query.{
  get_last_operational_batch_record_or_empty, get_batch_record_by_index_or_empty,
}
use zsequencer.NodeTasks.Sign.{
  SignSyncPointRequest, is_locked, check_timestamp, is_later, check_increasing, check_last_batch,
  check_parent, has_hash, is_at_point, check_point, sync_point_hash, sign_sync_point,
}

-- The state is one that has a name. The time is near the clock for a point on locked batches and 0 for any other; the batch at the index
-- has the chaining hash and has reached the state; the last finalized batch, if there is one, is
-- the parent, and for a point on locked batches is not later than it.
pub record IsChecked (db : InMemoryDb) (now : ℕ) (p : SignSyncPointRequest) : Type 0 where
  pub app : App
  pub batch : Batch
  pub reached : OperationalState
  pub has_app : app_of db p.app_name ≡ ok app
  pub near : str_eq p.state "locked" ≡ true → (now < p.timestamp + 10) × (p.timestamp < now + 10)
  pub timeless : str_eq p.state "locked" ≡ false → p.timestamp ≡ 0
  pub found : get_batch_or_empty app.operational_batch_sequence p.index ≡ some batch
  pub same_hash : batch.chaining_hash ≡ p.chaining_hash
  pub at_state : get_state app.operational_batch_sequence p.index ≡ ok reached
  pub base_state : State
  pub names_state : state_of_name p.state ≡ some base_state
  pub far_enough : is_state_before_or_equal base_state (operational reached) ≡ true
  pub follows :
      (r : BatchRecord) (b : Batch)
      → get_last_or_empty app.operational_batch_sequence finalized ≡ some r
      → r.batch ≡ some b
      → (p.parent_index ≡ r.index)
        × (str_eq p.state "locked" ≡ true → (t : ℕ) × (b.timestamp ≡ some t) × (t ≤ p.timestamp))

timestamp_checked :
    (now : ℕ) (p : SignSyncPointRequest) {u : Unit {0}}
    → check_timestamp now p ≡ ok u
    → (str_eq p.state "locked" ≡ true → (now < p.timestamp + 10) × (p.timestamp < now + 10))
      × (str_eq p.state "locked" ≡ false → p.timestamp ≡ 0)
unfolding check_timestamp is_locked
timestamp_checked now p h = (
  (λ e. let h' = rw (e, check_timestamp) at h in ground arith),
  (λ e. let h' = rw (e, check_timestamp) at h in ground arith),
)

later_checked :
    (o : Option ℕ) (timestamp : ℕ) {u : Unit {0}}
    → (is_later o timestamp >>= λ later. raise_if invalid_request later) ≡ ok u
    → (t : ℕ) × (o ≡ some t) × (t ≤ timestamp)
unfolding is_later
later_checked none timestamp h = absurd (cc)
later_checked (some t) timestamp h =
    let v = raise_if-ok invalid_request (ltb timestamp t) h in (t, refl, ground (arith, v))

increasing_checked :
    (p : SignSyncPointRequest) (b : Batch) {u : Unit {0}}
    → check_increasing p b ≡ ok u
    → str_eq p.state "locked" ≡ true
    → (t : ℕ) × (b.timestamp ≡ some t) × (t ≤ p.timestamp)
unfolding check_increasing is_locked
increasing_checked p b h e = later_checked b.timestamp p.timestamp (rw (e, check_increasing) at h)

parent_checked :
    (p : SignSyncPointRequest) (o : Option BatchRecord) {u : Unit {0}}
    → check_parent p o ≡ ok u
    → (r : BatchRecord) (b : Batch) → o ≡ some r
    → r.batch ≡ some b
    → (p.parent_index ≡ r.index)
      × (str_eq p.state "locked" ≡ true → (t : ℕ) × (b.timestamp ≡ some t) × (t ≤ p.timestamp))
unfolding check_parent check_last_batch
parent_checked p o h r b e e' =
    let h' = rw (e, check_parent, e', check_last_batch) at h in
    let (u, e1, h1) = >>=-eq-ok (check_increasing p b) _ h' in
    let v = raise_if-ok invalid_request (not (p.parent_index == r.index)) h1 in
    (ground (arith, v), λ l. increasing_checked p b e1 l)

module _ (p : SignSyncPointRequest) where
  matched :
      (base_state : State) (b : Batch) (t : OperationalState)
      → is_at_point p base_state (record { batch = some b; index = p.index; state = t }) ≡ true
      → (b.chaining_hash ≡ p.chaining_hash)
        × (is_state_before_or_equal base_state (operational t) ≡ true)
  unfolding is_at_point has_hash
  matched base_state b t k = elim (Bool-cases (str_eq b.chaining_hash p.chaining_hash)) [
    | inl e ↦ elim (Bool-cases (is_state_before_or_equal base_state (operational t))) [
      | inl f ↦ (ground (arith, e, eq_iff b.chaining_hash p.chaining_hash), f)
      | inr f ↦ absurd (ground (arith, e, f))
    ]
    | inr e ↦ absurd (ground (arith, e))
  ]

  -- What a record that passes the last check has.
  abbrev IsMatch : BatchSequence → Option Batch → Type 0
  IsMatch s o =
      (b : Batch) × (t : OperationalState) × (base_state : State) × (o ≡ some b)
      × (b.chaining_hash ≡ p.chaining_hash)
      × (get_state s p.index ≡ ok t)
      × (state_of_name p.state ≡ some base_state)
      × (is_state_before_or_equal base_state (operational t) ≡ true)

  named :
      (s : BatchSequence) (b : Batch) (t : OperationalState) {u : Unit {0}}
      → check_point p (some (record { batch = some b; index = p.index; state = t })) ≡ ok u
      → get_state s p.index ≡ ok t
      → IsMatch s (some b)
  unfolding check_point
  named s b t h f = elim (Option-cases (state_of_name p.state)) [
    | inl e ↦ absurd (let h' = rw (e, check_point) at h in cc)
    | inr (base_state, e) ↦
        let r : BatchRecord = record { batch = some b; index = p.index; state = t } in
        let v =
          raise_if-ok invalid_request (not (is_at_point p base_state r))
            (rw (e, check_point) at h) in
        let (x, y) = matched base_state b t (ground (arith, v)) in
        (b, t, base_state, refl, x, f, e, y)
  ]

  -- The record that a sync point matches.
  point_found :
      (s : BatchSequence) (found : Option BatchRecord) {u : Unit {0}}
      → get_or_empty s p.index ≡ ok found
      → check_point p found ≡ ok u
      → IsMatch s (get_batch_or_empty s p.index)
  unfolding get_or_empty
  point_found s found {u} h k = go (get_batch_or_empty s p.index) h
    where
      go : (o : Option Batch) → with_state s p.index o ≡ ok found → IsMatch s o
      go none e =
          let e' : none ≡ found = unfold with_state in ground arith in
          absurd (let k' = rw (sym e') at k in unfold check_point in ground arith)
      go (some b) e = elim (Result-cases (get_state s p.index)) [
        | inr (x, f) ↦ absurd (unfold with_state in ground (arith, f))
        | inl (t, f) ↦
            let g : some (record { batch = some b; index = p.index; state = t }) ≡ found =
              unfold with_state in ground (arith, f) in
            named s b t (rw (sym g) at k) f
      ]

module _ (net : Network) (bls_sign : String → String) (db : InMemoryDb) (now : ℕ)
    (p : SignSyncPointRequest) where
  -- A sync point is signed only if the text of its state names one of the four states, its
  -- batch has the signed chaining hash and has reached that state, its time is within 10
  -- seconds of the clock for the state locked and 0 for any other, and the last finalized
  -- batch, if there is one, is its parent, and is not later than a point of the state locked;
  -- the signature is on the hash of the point.
  pub sign_sync_point-IsChecked :
      (signature : String)
      → sign_sync_point net bls_sign db now p ≡ ok signature
      → IsChecked db now p × (signature ≡ bls_sign (sync_point_hash net bls_sign p))
  unfolding sign_sync_point get_last_operational_batch_record_or_empty
      get_batch_record_by_index_or_empty
  sign_sync_point-IsChecked signature h =
      let (u1, e1, h1) = >>=-eq-ok (check_timestamp now p) _ h in
      let (last, e2, h2) = >>=-eq-ok _ _ h1 in
      let (app, e3, h3) = >>=-eq-ok (app_of db p.app_name) _ e2 in
      let (u4, e4, h4) = >>=-eq-ok (check_parent p last) _ h2 in
      let (found, e5, h5) = >>=-eq-ok _ _ h4 in
      let (app', e6, h6) = >>=-eq-ok (app_of db p.app_name) _ e5 in
      let (u7, e7, h7) = >>=-eq-ok (check_point p found) _ h5 in
      let same : app' ≡ app = ok-eq-ok (sym e6 ∙ e3) in
      let found_at = rw same at h6 in
      let (b, t, base_state, i, j, k, n, l) =
        point_found p app.operational_batch_sequence found found_at e7 in
      let (near, timeless) = timestamp_checked now p e1 in
      (
        record {
          app = app;
          batch = b;
          reached = t;
          has_app = e3;
          near = near;
          timeless = timeless;
          found = i;
          same_hash = j;
          at_state = k;
          base_state = base_state;
          names_state = n;
          far_enough = l;
          follows = λ r x y z. parent_checked p last e4 r x (sym (ok-eq-ok h3) ∙ y) z;
        },
        sym (ok-eq-ok h7),
      )
