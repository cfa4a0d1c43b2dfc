-- ===== src/Db/Valid.antt =====
-- The operations of the database that leave the sequences of all apps valid.
use zsequencer.Prelude.{ℕ, ◌≡◌, Bool, List, [], ◌∷◌, String, arith, str_eq, Bool-cases, inl, inr}
use zsequencer.State.{OperationalState}
use zsequencer.Errors.{ok, ◌>>=◌, >>=-eq-ok, ok-eq-ok}
use zsequencer.Dict.{lookup-insert}
use zsequencer.BatchSequence.Validity.{IsValid}
use zsequencer.Db.{
  App, InMemoryDb, app_of, put_app, pop_limited, pop_limited_initialized_batch_bodies,
  reinit_missed_batch_bodies, insert_sequenced_batch_bodies,
}
use zsequencer.Db.Chain.{insert_bodies-IsValid}
use zsequencer.Db.Promotion.Valid.{AppsValid, app_of_found}
use zsequencer.Db.Latency.{
  track_sequencing_indices, reset_latency_queue, reinitialize_sequenced_batches, reinitialized,
}
use zsequencer.Db.Latency.Switch.{reinitialized_lem}
use zsequencer.Db.Query.{set_censoring}

module _ (db : InMemoryDb) (name : String) where
  pub put_app-AppsValid :
      (app : App)
      → IsValid app.operational_batch_sequence
      → AppsValid db
      → AppsValid (put_app db name app)
  unfolding put_app
  put_app-AppsValid app v a j x e = elim (Bool-cases (str_eq j name)) [
    | inl y ↦ let z : x ≡ app = ground (arith, lookup-insert name j app db.apps) in rw z v
    | inr y ↦ a j x (ground (arith, lookup-insert name j app db.apps))
  ]

  -- An app's entry changed by a function that keeps its sequence valid.
  pub modify-AppsValid :
      (f : App → App) (db' : InMemoryDb)
      → ((app : App)
          → IsValid app.operational_batch_sequence
          → IsValid (f app).operational_batch_sequence)
      → (app_of db name >>= λ app. ok (put_app db name (f app))) ≡ ok db'
      → AppsValid db
      → AppsValid db'
  modify-AppsValid f db' keeps h a =
      let (app, e, g) = >>=-eq-ok (app_of db name) _ h in
      rw (ok-eq-ok g) at
        (put_app-AppsValid (f app) (keeps app (a name app (app_of_found db name app e))) a)

  pub reinit_missed-AppsValid :
      (bodies : List String) (db' : InMemoryDb)
      → reinit_missed_batch_bodies db name bodies ≡ ok db'
      → AppsValid db
      → AppsValid db'
  unfolding reinit_missed_batch_bodies
  reinit_missed-AppsValid bodies db' = modify-AppsValid _ db' (λ app v. v)

  pub set_censoring-AppsValid :
      (value : Bool) (db' : InMemoryDb)
      → set_censoring value db name ≡ ok db'
      → AppsValid db
      → AppsValid db'
  unfolding set_censoring
  set_censoring-AppsValid value db' = modify-AppsValid _ db' (λ app v. v)

  pub track-AppsValid :
      (state : OperationalState) (last time : ℕ) (db' : InMemoryDb)
      → track_sequencing_indices db name state last time ≡ ok db'
      → AppsValid db
      → AppsValid db'
  unfolding track_sequencing_indices
  track-AppsValid state last time db' = modify-AppsValid _ db' (λ app v. v)

  pub reset_latency_queue-AppsValid :
      (time : ℕ) (db' : InMemoryDb)
      → reset_latency_queue db name time ≡ ok db'
      → AppsValid db
      → AppsValid db'
  unfolding reset_latency_queue
  reset_latency_queue-AppsValid time db' = modify-AppsValid _ db' (λ app v. v)

  pub reinitialize-AppsValid :
      (db' : InMemoryDb)
      → reinitialize_sequenced_batches db name ≡ ok db'
      → AppsValid db
      → AppsValid db'
  unfolding reinitialize_sequenced_batches
  reinitialize-AppsValid db' =
      modify-AppsValid reinitialized db' (λ app v. let (x, y, z, w) = reinitialized_lem app v in w)

  pub insert_sequenced-AppsValid :
      (gen_hash : String → String) (bodies : List String) (db' : InMemoryDb)
      → insert_sequenced_batch_bodies gen_hash db name bodies ≡ ok db'
      → AppsValid db
      → AppsValid db'
  unfolding insert_sequenced_batch_bodies
  insert_sequenced-AppsValid gen_hash [] db' h a = rw (ok-eq-ok h) at a
  insert_sequenced-AppsValid gen_hash (b ∷ bs) db' h a =
      modify-AppsValid _ db' (λ app v. insert_bodies-IsValid gen_hash _ _ (b ∷ bs) v) h a

  pub pop_limited-AppsValid :
      (max_size : ℕ) (taken : List String) (db' : InMemoryDb)
      → pop_limited_initialized_batch_bodies db name max_size ≡ ok (taken, db')
      → AppsValid db
      → AppsValid db'
  unfolding pop_limited_initialized_batch_bodies
  pop_limited-AppsValid max_size taken db' h a =
      let (app, e, g) = >>=-eq-ok (app_of db name) _ h in
      let app' : App = record app {
        initialized_batch_bodies = (pop_limited max_size 0 app.initialized_batch_bodies).1;
      } in
      let same : put_app db name app' ≡ db' = cc in
      rw same at (put_app-AppsValid app' (a name app (app_of_found db name app e)) a)
