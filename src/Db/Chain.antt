-- ===== src/Db/Chain.antt =====
-- The chain of hashes over the sequenced batches, as the sequencer and the nodes build it.
use Prim.Native.String.{◌++◌ as append_text}
use zsequencer.Prelude.{
  ◌+◌, ◌-◌, ◌≡◌, refl, ap, sym, ◌∙◌, false, List, [], ◌∷◌, ◌++◌, String, arith, map, get_elem?,
  length, ◌==◌, ltb,
}
use mathlib.Core.List.{append_assoc, map-append, append-nil}
use zsequencer.Errors.{ok}
use zsequencer.Batch.{Batch}
use zsequencer.BatchSequence.{BatchSequence, append, get_last_or_empty, get_batch_or_empty}
use zsequencer.BatchSequence.Validity.{IsValid, append-IsValid}
use zsequencer.Db.{
  App, InMemoryDb, app_of, hash_of_batch, hash_of_record, put_app, new_batch, last_chaining_hash,
  sequence_bodies, insert_bodies, sequencer_init_batch_bodies, insert_sequenced_batch_bodies,
}

module _ (gen_hash : String → String) where
  sequence_bodies-eq-insert_bodies :
      (s : BatchSequence) (h : String) (bodies : List String)
      → sequence_bodies gen_hash s h bodies ≡ insert_bodies gen_hash s h bodies
  unfolding sequence_bodies insert_bodies
  sequence_bodies-eq-insert_bodies s h [] = refl
  sequence_bodies-eq-insert_bodies s h (b ∷ bs) =
      sequence_bodies-eq-insert_bodies
        (append s (new_batch b (gen_hash (append_text h (gen_hash b))))).0
        (gen_hash (append_text h (gen_hash b))) bs

  -- On two databases in which a known app has the same sequence, the sequencer that sequences
  -- bodies and the node that inserts them, one at least, leave the same sequence for the app
  -- and the rest of each database as it was.
  pub sequencer_init-eq-insert_sequenced :
      (db db' : InMemoryDb) (app_name body : String) (bodies : List String) (app app' : App)
      → app_of db app_name ≡ ok app
      → app_of db' app_name ≡ ok app'
      → app.operational_batch_sequence ≡ app'.operational_batch_sequence
      → (s : BatchSequence) × (sequencer_init_batch_bodies gen_hash db app_name (body ∷ bodies)
          ≡ ok (put_app db app_name (record app { operational_batch_sequence = s })))
        × (insert_sequenced_batch_bodies gen_hash db' app_name (body ∷ bodies)
            ≡ ok (put_app db' app_name (record app' { operational_batch_sequence = s })))
  unfolding sequencer_init_batch_bodies insert_sequenced_batch_bodies
  sequencer_init-eq-insert_sequenced db db' app_name body bodies app app' e e' same =
      let q = app'.operational_batch_sequence in
      (
        insert_bodies gen_hash q (last_chaining_hash q) (body ∷ bodies),
        rw (e, same)
            (ap (λ s. ok (put_app db app_name (record app { operational_batch_sequence = s })))
              (sequence_bodies-eq-insert_bodies q (last_chaining_hash q) (body ∷ bodies))),
        rw e' refl,
      )

  -- Each batch carries the hash of the one before it joined to the hash of its own body.
  abbrev pub IsChained : String → List Batch → Type 0
  IsChained previous [] = Unit {0}
  IsChained previous (b ∷ bs) =
      (b.chaining_hash ≡ gen_hash (append_text previous (gen_hash b.body)))
      × IsChained b.chaining_hash bs

  -- The hash from which the next batch goes on.
  abbrev pub last_hash : String → List Batch → String
  last_hash previous [] = previous
  last_hash previous (b ∷ bs) = last_hash b.chaining_hash bs

  IsChained-append :
      (previous : String) (bs : List Batch) (body : String)
      → IsChained previous bs
      → IsChained previous (
          bs
          ++ new_batch body (gen_hash (append_text (last_hash previous bs) (gen_hash body))) ∷ [])
  IsChained-append previous [] body c = (refl, tt)
  IsChained-append previous (b ∷ bs) body c = (c.0, IsChained-append b.chaining_hash bs body c.1)

  last_hash-append :
      (previous : String) (bs : List Batch) (b : Batch)
      → last_hash previous (bs ++ b ∷ []) ≡ b.chaining_hash
  last_hash-append previous [] b = refl
  last_hash-append previous (x ∷ bs) b = last_hash-append x.chaining_hash bs b

  -- The batch that the loops append after the hash `h`.
  abbrev next_batch : String → String → Batch
  next_batch h body = new_batch body (gen_hash (append_text h (gen_hash body)))

  insert_bodies-IsChained :
      (previous h : String) (s : BatchSequence) (bodies : List String)
      → IsChained previous s.batches
      → h ≡ last_hash previous s.batches
      → IsChained previous (insert_bodies gen_hash s h bodies).batches
  unfolding insert_bodies append
  insert_bodies-IsChained previous h s [] c e = c
  insert_bodies-IsChained previous h s (b ∷ bs) c e =
      insert_bodies-IsChained previous (gen_hash (append_text h (gen_hash b)))
        (append s (next_batch h b)).0 bs (rw e (IsChained-append previous s.batches b c))
        (sym (last_hash-append previous s.batches (next_batch h b)))

  pub insert_bodies-IsValid :
      (s : BatchSequence) (h : String) (bodies : List String)
      → IsValid s
      → IsValid (insert_bodies gen_hash s h bodies)
  unfolding insert_bodies
  insert_bodies-IsValid s h [] v = v
  insert_bodies-IsValid s h (b ∷ bs) v =
      insert_bodies-IsValid (append s (next_batch h b)).0 (gen_hash (append_text h (gen_hash b))) bs
        (append-IsValid s (next_batch h b) v)

  -- The bodies are appended in their order, and nothing that was there is changed.
  abbrev pub bodies : List Batch → List String
  bodies = map (λ b. b.body)

  bodies-insert_bodies :
      (s : BatchSequence) (h : String) (bs : List String)
      → bodies (insert_bodies gen_hash s h bs).batches ≡ bodies s.batches ++ bs
  unfolding insert_bodies append
  bodies-insert_bodies s h [] = sym (append-nil (bodies s.batches))
  bodies-insert_bodies s h (b ∷ bs) =
      bodies-insert_bodies (append s (next_batch h b)).0 (gen_hash (append_text h (gen_hash b))) bs
      ∙ ap (λ r. r ++ bs) (map-append (λ x. x.body) s.batches (next_batch h b ∷ []))
      ∙ append_assoc (bodies s.batches) (b ∷ []) bs

  hash-get_elem? :
      (b : Batch) (bs : List Batch)
      → hash_of_batch (get_elem? (b ∷ bs) (length bs)) ≡ last_hash b.chaining_hash bs
  unfolding hash_of_batch
  hash-get_elem? b [] = refl
  hash-get_elem? b (x ∷ bs) = hash-get_elem? x bs

  last-get_batch :
      (s : BatchSequence) (b : Batch) (bs : List Batch)
      → hash_of_batch
          (get_batch_or_empty (record s { batches = b ∷ bs }) (s.index_offset + length bs))
        ≡ last_hash b.chaining_hash bs
  unfolding get_batch_or_empty
  last-get_batch s b bs =
      let inside : ltb (s.index_offset + length bs) s.index_offset ≡ false = ground arith in
      let relative : s.index_offset + length bs - s.index_offset ≡ length bs = omega arith in
      rw (inside, relative) (hash-get_elem? b bs)

  -- The hash that the initializers go on from is the one of the last batch.
  last_chaining_hash_lem :
      (s : BatchSequence) → IsValid s → last_chaining_hash s ≡ last_hash "" s.batches
  unfolding last_chaining_hash hash_of_record get_last_or_empty
  last_chaining_hash_lem s v = go s.batches refl
    where
      go : (bs : List Batch) → s.batches ≡ bs → last_chaining_hash s ≡ last_hash "" s.batches
      go [] e = rw e refl
      go (b ∷ bs) e =
          let at_last : s.index_offset + length (b ∷ bs) - 1 ≡ s.index_offset + length bs =
            omega arith in
          let nonzero : ((s.index_offset + length bs) == 0) ≡ false =
            ground (arith, v.offset_pos) in
          rw (e, at_last, nonzero) (last-get_batch s b bs)

  -- Inserting bodies into the valid sequence of a known app, whose batches are chained from a
  -- previous hash (the empty one if it has none), succeeds, appends the bodies in their order,
  -- and leaves a valid sequence chained from the same hash.
  pub insert_sequenced_batch_bodies-IsChained :
      (db : InMemoryDb) (app_name previous b : String) (bs : List String) (app : App)
      → app_of db app_name ≡ ok app
      → IsValid app.operational_batch_sequence
      → IsChained previous app.operational_batch_sequence.batches
      → last_hash "" app.operational_batch_sequence.batches
        ≡ last_hash previous app.operational_batch_sequence.batches
      → (s : BatchSequence) × (insert_sequenced_batch_bodies gen_hash db app_name (b ∷ bs)
          ≡ ok (put_app db app_name (record app { operational_batch_sequence = s })))
        × IsValid s
        × IsChained previous s.batches
        × (bodies s.batches ≡ bodies app.operational_batch_sequence.batches ++ b ∷ bs)
  unfolding insert_sequenced_batch_bodies
  insert_sequenced_batch_bodies-IsChained db app_name previous b bs app e v c same =
      let s = app.operational_batch_sequence in
      let h = last_chaining_hash s in
      let h≡ = last_chaining_hash_lem s v in
      (
        insert_bodies gen_hash s h (b ∷ bs),
        rw e refl,
        insert_bodies-IsValid s h (b ∷ bs) v,
        insert_bodies-IsChained previous h s (b ∷ bs) c (h≡ ∙ same),
        bodies-insert_bodies s h (b ∷ bs),
      )
