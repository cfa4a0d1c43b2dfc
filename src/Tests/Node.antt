-- ===== src/Tests/Node.antt =====
-- The database of a node, a verified sync point and the choice of one, run on one app.
use zsequencer.Prelude.{
  ◌≡◌, refl, ◌-◌, ◌++◌, ℕ, String, true, false, none, some, [], ◌∷◌, arith, List,
}
use mathlib.Core.List.{reverse}
use zsequencer.State.{sequenced, finalized}
use zsequencer.Errors.{ok}
use zsequencer.Dict.{lookup}
use zsequencer.Batch.{get_utf8_size}
use zsequencer.BatchSequence.{BatchSequence, batches_size}
use zsequencer.BatchSequence.Validity.{IsValid}
use zsequencer.Network.{Network, NetworkState}
use zsequencer.Quorum.{SyncPoint}
use zsequencer.Db.{
  App, InMemoryDb, app_of, put_app, pop_limited_initialized_batch_bodies,
  reinit_missed_batch_bodies, insert_sequenced_batch_bodies, sequencer_init_batch_bodies,
  pop_limited,
}
use zsequencer.Db.Pool.{
  IsSplit, pop_limited_initialized_batch_bodies-IsSplit, reinit_after_pop, with_pool,
}
use zsequencer.Db.Chain.{
  IsChained, bodies, insert_sequenced_batch_bodies-IsChained, sequencer_init-eq-insert_sequenced,
}
use zsequencer.Db.Latency.{tracked, reinitialized}
use zsequencer.Db.Latency.Queue.{IsTimeline, AllAbove, tracked-IsTimeline}
use zsequencer.Db.Latency.Switch
use zsequencer.Db.Latency.Switch.{reinitialized_lem, locked_batches, unlocked_batches}
use zsequencer.Tests.Sequence.{three, three-IsValid}

-- The app `"a"` with two bodies in the pool.
abbrev pub app : App
app = record {
  nodes_state = [];
  locked_sync_point = none;
  finalized_sync_point = none;
  initialized_batch_bodies = "xx" ∷ "yyy" ∷ [];
  operational_batch_sequence = three;
  is_sequencer_censoring = false;
  latency_tracking_queue = [];
}

abbrev pub db : InMemoryDb
db = record {
  apps = ("a", app) ∷ [];
  snapshot_manager = [];
  is_sequencer_down = false;
  first_finalized_index = some 4;
}

known : app_of db "a" ≡ ok app
unfolding app_of lookup
known = refl

pop_limited_initialized_batch_bodies_example :
    (taken left : List String) × (pop_limited_initialized_batch_bodies db "a" 2
      ≡ ok (taken, put_app db "a" (with_pool app left)))
    × IsSplit 2 0 ("xx" ∷ "yyy" ∷ []) taken left
pop_limited_initialized_batch_bodies_example =
    pop_limited_initialized_batch_bodies-IsSplit db "a" 2 app known

popped :
    pop_limited_initialized_batch_bodies db "a" 9
    ≡ ok ("xx" ∷ "yyy" ∷ [], put_app db "a" (with_pool app []))
unfolding pop_limited_initialized_batch_bodies app_of lookup pop_limited get_utf8_size put_app
popped = refl

reinit_after_pop_example :
    (left : List String) × (("xx" ∷ "yyy" ∷ []) ++ left ≡ "xx" ∷ "yyy" ∷ [])
    × (reinit_missed_batch_bodies (put_app db "a" (with_pool app [])) "a" ("xx" ∷ "yyy" ∷ [])
        ≡ ok (
            put_app
              (put_app db "a" (with_pool app []))
              "a"
              (with_pool app (reverse ("xx" ∷ "yyy" ∷ []) ++ left))))
reinit_after_pop_example =
    reinit_after_pop db "a" 9 app known ("xx" ∷ "yyy" ∷ []) (put_app db "a" (with_pool app []))
      popped

-- A hash that names what it is given.
abbrev pub hash : String → String
hash s = s

-- A sequencer with the same sequence of the app and an empty pool.
abbrev empty_pool : App
empty_pool = record app { initialized_batch_bodies = [] }

abbrev sequencer_db : InMemoryDb
sequencer_db = record db { apps = ("a", empty_pool) ∷ []; first_finalized_index = none }

known_pool : app_of sequencer_db "a" ≡ ok empty_pool
unfolding app_of lookup
known_pool = refl

sequencer_init-eq-insert_sequenced_example :
    (s : BatchSequence) × (sequencer_init_batch_bodies hash sequencer_db "a" ("xx" ∷ [])
      ≡ ok (put_app sequencer_db "a" (record empty_pool { operational_batch_sequence = s })))
    × (insert_sequenced_batch_bodies hash db "a" ("xx" ∷ [])
        ≡ ok (put_app db "a" (record app { operational_batch_sequence = s })))
sequencer_init-eq-insert_sequenced_example =
    sequencer_init-eq-insert_sequenced hash sequencer_db db "a" "xx" [] empty_pool app known_pool
      known refl

-- An app that has sequenced nothing yet.
abbrev pub new_sequence : BatchSequence
new_sequence = record {
  index_offset = 1;
  batches = [];
  locked_last_index = none;
  finalized_last_index = none;
  size = 0;
}

pub new_sequence-IsValid : IsValid new_sequence
unfolding batches_size
new_sequence-IsValid = record {
  offset_pos = omega arith;
  sized = refl;
  locked_in = tt;
  finalized_in = tt;
  ordered = omega arith;
}

abbrev pub new_app : App
new_app = record app { operational_batch_sequence = new_sequence }

abbrev pub new_db : InMemoryDb
new_db = record db { apps = ("a", new_app) ∷ [] }

known_new : app_of new_db "a" ≡ ok new_app
unfolding app_of lookup
known_new = refl

insert_sequenced_batch_bodies_example :
    (s : BatchSequence) × (insert_sequenced_batch_bodies hash new_db "a" ("xx" ∷ "yyy" ∷ [])
      ≡ ok (put_app new_db "a" (record new_app { operational_batch_sequence = s })))
    × IsValid s
    × IsChained hash "" s.batches
    × (bodies hash s.batches ≡ "xx" ∷ "yyy" ∷ [])
insert_sequenced_batch_bodies_example =
    insert_sequenced_batch_bodies-IsChained hash new_db "a" "" "xx" ("yyy" ∷ []) new_app known_new
      new_sequence-IsValid tt refl

reinitialized_example :
    ((reinitialized app).operational_batch_sequence.batches ≡ locked_batches app)
    × ((reinitialized app).initialized_batch_bodies
        ≡ app.initialized_batch_bodies ++ Switch.bodies (unlocked_batches app))
    × (locked_batches app ++ unlocked_batches app ≡ app.operational_batch_sequence.batches)
    × IsValid (reinitialized app).operational_batch_sequence
reinitialized_example = reinitialized_lem app three-IsValid

tracked-IsTimeline_example :
    IsTimeline 9 (tracked sequenced 7 9 (record { time = 3; index = 4 } ∷ []))
    × AllAbove 7 (tracked finalized 7 9 (record { time = 3; index = 4 } ∷ []))
tracked-IsTimeline_example =
    tracked-IsTimeline sequenced 8 9 7 (record { time = 3; index = 4 } ∷ []) (omega arith)
      (omega arith, tt, tt)

-- A network of one node, with numbers for its keys and every signature accepted.
abbrev network_state : NetworkState ℕ
network_state = record {
  attesting_nodes = ("n", record { stake = 10; public_key_g2 = 1 }) ∷ [];
  total_stake = 10;
  aggregated_public_key = 1;
}

abbrev pub net : Network
net = record {
  Key = ℕ;
  subtract = λ a b. a - b;
  is_bls_sig_verified = λ signature message key. true;
  gen_hash = hash;
  sync_point_json = λ app_name state index chaining_hash timestamp parent_index. chaining_hash;
  get_network_state = λ tag. network_state;
  threshold_percent = 50;
  snapshot_chunk_size = 100;
  remove_chunk_border = 2;
  node_receive_limit = 100;
}

abbrev point : SyncPoint
point = record {
  app_name = "a";
  state = sequenced;
  index = 2;
  chaining_hash = "hb";
  tag = 0;
  timestamp = 0;
  parent_index = 0;
  signature_hex = "s";
  nonsigners = [];
}
