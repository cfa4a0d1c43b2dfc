-- ===== src/Tests/Points.antt =====
-- A promotion and the choice of a sync point run on one app.
use zsequencer.Prelude.{◌≡◌, refl, ◌<◌, ℕ, String, true, false, none, some, [], ◌∷◌, arith, List}
use mathlib.Core.List.{Memᴰ}
use mathlib.Core.List.Memᴰ.{head, tail}
use zsequencer.State.{finalized, sequenced, locked}
use zsequencer.Errors.{ok}
use zsequencer.Dict.{lookup}
use zsequencer.Batch.{get_batch_size, get_utf8_size}
use zsequencer.BatchSequence.{
  get_last_index_or_default, BatchSequence, batches_size, get_or_empty, get_batch_or_empty,
  get_last_or_empty, get_state,
}
use zsequencer.BatchSequence.Validity.{IsValid}
use zsequencer.Quorum.{is_sync_point_signature_verified}
use zsequencer.Db.{NodeState, SignatureData, App, InMemoryDb, app_of}
use zsequencer.Db.Promotion.{promote_batches, promoted_db, perform_promotion, is_refused, is_target}
use zsequencer.Db.Promotion.Safety.{
  IsJustified, promote_batches-IsJustified, promote_batches_refused,
}
use zsequencer.Db.Promotion.Effect.{promote_batches-locks}
use zsequencer.Db.Promotion.Valid.{AppsValid, promote_batches-AppsValid}
use zsequencer.SyncPoint.{Stakes, find_sync_point, has_threshold}
use zsequencer.SyncPoint.Choice.{
  find_sync_point-some, find_sync_point-highest, find_sync_point-none, supporters,
}
use zsequencer.Tests.Sequence.{first, second}
use zsequencer.Tests.Node.{app, db, net}

abbrev pending : BatchSequence
pending = record {
  index_offset = 1;
  batches = first ∷ second ∷ [];
  locked_last_index = none;
  finalized_last_index = none;
  size = 3;
}

pending-IsValid : IsValid pending
unfolding batches_size get_batch_size get_utf8_size
pending-IsValid = record {
  offset_pos = omega arith;
  sized = refl;
  locked_in = tt;
  finalized_in = tt;
  ordered = omega arith;
}

abbrev pending_app : App
pending_app = record app { operational_batch_sequence = pending }

abbrev pending_db : InMemoryDb
pending_db = record db { apps = ("a", pending_app) ∷ [] }

-- A signature that locks the second batch, and one on another hash.
abbrev signed_on : String → SignatureData
signed_on chaining_hash = record {
  state = sequenced;
  index = 2;
  chaining_hash = chaining_hash;
  signature = "s";
  nonsigners = [];
  tag = 0;
  timestamp = 0;
  parent_index = some 0;
}

known_pending : app_of pending_db "a" ≡ ok pending_app
unfolding app_of lookup
known_pending = refl

locks :
    promote_batches net pending_db "a" (signed_on "hb")
    ≡ ok (true, promoted_db pending_db "a" pending_app (signed_on "hb") 0 locked)
unfolding promote_batches is_sync_point_signature_verified app_of lookup is_refused
    get_last_or_empty get_or_empty get_batch_or_empty get_state is_target perform_promotion
locks = refl

promote_batches-IsJustified_example : IsJustified net pending_db "a" (signed_on "hb")
promote_batches-IsJustified_example =
    promote_batches-IsJustified net pending_db "a" (signed_on "hb")
      (promoted_db pending_db "a" pending_app (signed_on "hb") 0 locked) locks

promote_batches-locks_example :
    (app' : App) × (app_of (promoted_db pending_db "a" pending_app (signed_on "hb") 0 locked) "a"
      ≡ ok app')
    × (get_last_index_or_default app'.operational_batch_sequence locked 0 ≡ 2)
    × (get_last_index_or_default app'.operational_batch_sequence finalized 0
        ≡ get_last_index_or_default pending finalized 0)
promote_batches-locks_example =
    promote_batches-locks net pending_db "a" pending_app (signed_on "hb")
      (promoted_db pending_db "a" pending_app (signed_on "hb") 0 locked) known_pending
      pending-IsValid refl locks

pending_db-AppsValid : AppsValid pending_db
unfolding lookup
pending_db-AppsValid name x e =
    let same : x ≡ pending_app = ground (arith, e) in rw same pending-IsValid

promote_batches-AppsValid_example :
    AppsValid (promoted_db pending_db "a" pending_app (signed_on "hb") 0 locked)
promote_batches-AppsValid_example =
    promote_batches-AppsValid net pending_db "a" (signed_on "hb") true
      (promoted_db pending_db "a" pending_app (signed_on "hb") 0 locked) pending_db-AppsValid locks

is_refused_at : promote_batches net pending_db "a" (signed_on "hx") ≡ ok (false, pending_db)
unfolding promote_batches is_sync_point_signature_verified app_of lookup is_refused
    get_last_or_empty get_or_empty get_batch_or_empty get_state is_target
is_refused_at = refl

promote_batches_refused_example : pending_db ≡ pending_db
promote_batches_refused_example =
    promote_batches_refused net pending_db "a" (signed_on "hx") pending_db is_refused_at

-- Two nodes of three report an index above the last sync point.
abbrev state_at : String → ℕ → NodeState
state_at node_id index = record {
  node_id = node_id;
  sequenced_index = index;
  sequenced_chaining_hash = "h";
  locked_index = 0;
  locked_chaining_hash = "";
  update_timestamp = 0;
}

abbrev stakes : Stakes
stakes = record {
  nodes = ("m", 10) ∷ ("n", 10) ∷ ("o", 10) ∷ [];
  own = 10;
  total = 40;
  threshold_percent = 75;
}

abbrev states : List NodeState
states = state_at "m" 5 ∷ state_at "n" 7 ∷ state_at "o" 2 ∷ []

chosen :
    find_sync_point (λ s. s.sequenced_index) stakes 2 states
    ≡ ok (some (state_at "m" 5, "n" ∷ "m" ∷ []))
unfolding find_sync_point lookup
chosen = refl

find_sync_point-some_example :
    Memᴰ (state_at "m" 5) states × (2 < 5) × (has_threshold stakes ("n" ∷ "m" ∷ []) ≡ ok true)
find_sync_point-some_example =
    find_sync_point-some (λ s. s.sequenced_index) stakes 2 states (state_at "m" 5) ("n" ∷ "m" ∷ [])
      chosen

find_sync_point-highest_example :
    has_threshold stakes (supporters (λ s. s.sequenced_index) 2 states 7) ≡ ok false
find_sync_point-highest_example =
    find_sync_point-highest (λ s. s.sequenced_index) stakes 2 states (state_at "m" 5)
      ("n" ∷ "m" ∷ []) (state_at "n" 7) chosen (tail (head refl)) (omega arith)

none_chosen : find_sync_point (λ s. s.sequenced_index) stakes 5 states ≡ ok none
unfolding find_sync_point lookup
none_chosen = refl

find_sync_point-none_example :
    has_threshold stakes (supporters (λ s. s.sequenced_index) 5 states 7) ≡ ok false
find_sync_point-none_example =
    find_sync_point-none (λ s. s.sequenced_index) stakes 5 states (state_at "n" 7) none_chosen
      (tail (head refl)) (omega arith)
