-- ===== src/Db/Pool.antt =====
-- The pool of the bodies that wait to be sequenced: what is taken from it, and what is put back.
use zsequencer.Prelude.{
  ℕ, ◌+◌, ◌≤◌, ◌<◌, ◌≡◌, refl, ap, sym, ◌∙◌, List, [], ◌∷◌, ◌++◌, String, arith, ltb, Bool-cases,
  inl, inr,
}
use mathlib.Core.List.{reverse, append_assoc, reverse-cons}
use zsequencer.Errors.{ok}
use zsequencer.Dict.{lookup-insert_self}
use zsequencer.Batch.{get_utf8_size}
use zsequencer.Db.{
  App, InMemoryDb, app_of, put_app, pop_limited, pop_limited_initialized_batch_bodies, extend_left,
  reinit_missed_batch_bodies,
}

-- The size of a list of bodies.
unfoldable pub bodies_size : List String → ℕ
bodies_size [] = 0
bodies_size (b ∷ bs) = get_utf8_size b + bodies_size bs

-- The head of what is left does not fit any more.
abbrev pub BlockedBy : ℕ → List String → Type 0
BlockedBy room [] = Unit {0}
BlockedBy room (b ∷ bs) = room < get_utf8_size b

pub record IsSplit (max_size total : ℕ) (pool taken left : List String) : Type 0 where
  pub whole : taken ++ left ≡ pool
  pub fits : total + bodies_size taken ≤ max_size
  pub blocked :
      (b : String) (bs : List String)
      → left ≡ b ∷ bs
      → max_size < total + bodies_size taken + get_utf8_size b

pop_limited-IsSplit :
    (max_size total : ℕ) (pool : List String)
    → total ≤ max_size
    → IsSplit max_size total pool
        (pop_limited max_size total pool).0
        (pop_limited max_size total pool).1
unfolding pop_limited bodies_size
pop_limited-IsSplit max_size total [] h = record {
  whole = refl;
  fits = omega arith;
  blocked = λ b bs e. cc;
}
pop_limited-IsSplit max_size total (body ∷ rest) h =
    elim (Bool-cases (ltb max_size (total + get_utf8_size body))) [
      | inl x ↦
          rw x (record { whole = refl; fits = omega arith; blocked = λ b bs e. ground (arith, x) })
      | inr x ↦
          let i = pop_limited-IsSplit max_size (total + get_utf8_size body) rest (ground arith) in
          rw x (record {
            whole = ap (λ l. body ∷ l) i.whole;
            fits = omega (arith, i.fits);
            blocked = λ b bs e. omega (arith, i.blocked b bs e);
          })
    ]

extend_left-eq-reverse :
    {A : Type 0} (queue xs : List A) → extend_left queue xs ≡ reverse xs ++ queue
unfolding extend_left
extend_left-eq-reverse queue [] = refl
extend_left-eq-reverse queue (x ∷ xs) =
    extend_left-eq-reverse (x ∷ queue) xs
    ∙ rw (reverse-cons x xs) (sym (append_assoc (reverse xs) (x ∷ []) queue))

abbrev pub with_pool : App → List String → App
with_pool app bodies = record app { initialized_batch_bodies = bodies }

pub app_of-put_app :
    (db : InMemoryDb) (name : String) (app : App) → app_of (put_app db name app) name ≡ ok app
unfolding app_of put_app
app_of-put_app db name app = rw (lookup-insert_self name app db.apps) refl

module _ (db : InMemoryDb) (name : String) (max_size : ℕ) (app : App)
    (known : app_of db name ≡ ok app) where
  -- Taking bodies from the pool of a known app succeeds and splits it in two: what is taken
  -- comes first and is within the limit, and what is left is empty or begins with a body that
  -- does not fit.
  pub pop_limited_initialized_batch_bodies-IsSplit :
      (taken left : List String) × (pop_limited_initialized_batch_bodies db name max_size
        ≡ ok (taken, put_app db name (with_pool app left)))
      × IsSplit max_size 0 app.initialized_batch_bodies taken left
  unfolding pop_limited_initialized_batch_bodies
  pop_limited_initialized_batch_bodies-IsSplit =
      let (taken, left) = pop_limited max_size 0 app.initialized_batch_bodies in
      (
        taken,
        left,
        rw known refl,
        pop_limited-IsSplit max_size 0 app.initialized_batch_bodies (omega arith),
      )

  -- Bodies that were taken from the pool of a known app and are put back come to its front in
  -- reverse order.
  pub reinit_after_pop :
      (taken : List String) (db' : InMemoryDb)
      → pop_limited_initialized_batch_bodies db name max_size ≡ ok (taken, db')
      → (left : List String) × (taken ++ left ≡ app.initialized_batch_bodies)
        × (reinit_missed_batch_bodies db' name taken
            ≡ ok (put_app db' name (with_pool app (reverse taken ++ left))))
  unfolding reinit_missed_batch_bodies
  reinit_after_pop taken db' h =
      let (t, left, e, split) = pop_limited_initialized_batch_bodies-IsSplit in
      let x : taken ≡ t = cc in
      let y : db' ≡ put_app db name (with_pool app left) = cc in
      (
        left,
        rw x split.whole,
        rw (y, app_of-put_app db name (with_pool app left), extend_left-eq-reverse left taken) refl,
      )
