-- ===== src/Switch/Sync/Peers.antt =====
-- The last locked batches of the other nodes, sorted for each app (node/switch.py). What a node
-- answers is an argument.
use zsequencer.Prelude.{
  ℕ, Option, none, some, List, [], ◌∷◌, ◌++◌, String, leb, str_eq, if◌then◌else◌,
}
use zsequencer.Errors.{Result, ok, err, ◌>>=◌, key_error}
use zsequencer.Dict.{Dict, lookup, insert}
use zsequencer.Config.{Config, last_state}
use zsequencer.SequencerManager.{names_of}
use zsequencer.Switch.Sync.{Lock, LastLockedBatchEntry}

-- The batch of a record, with the entries of a lock if it has them.
pub record LastLockedBatch : Type 0 where
  pub chaining_hash : String
  pub lock : Option Lock

-- A record has no batch where the source has an empty dict.
pub record LastLockedRecord : Type 0 where
  pub index : ℕ
  pub batch : Option LastLockedBatch

-- What a node answers: an error of any kind, or its records by app.
pub data LastLockedAnswer : Type 0 where
  failed : LastLockedAnswer
  fetched : Dict LastLockedRecord → LastLockedAnswer

-- `{app_name: … for app_name in zconfig.APPS if app_name in data["data"]}`
unfoldable pub records_of_apps : List String → Dict LastLockedRecord → Dict LastLockedRecord
records_of_apps [] data_by_app = []
records_of_apps (app_name ∷ apps) data_by_app =
    let rest = records_of_apps apps data_by_app in
    elim (lookup app_name data_by_app) [ none ↦ rest | some r ↦ (app_name, r) ∷ rest ]

unfoldable pub fetch_node_last_locked_batch_records_or_none :
    List String → LastLockedAnswer → Option (Dict LastLockedRecord)
unfolding records_of_apps
fetch_node_last_locked_batch_records_or_none apps failed = none
fetch_node_last_locked_batch_records_or_none apps (fetched data_by_app) =
    some (records_of_apps apps data_by_app)

-- `all_records[app_name].append(…)`
unfoldable pub append_entry :
    String
    → LastLockedBatchEntry
    → Dict (List LastLockedBatchEntry)
    → Result (Dict (List LastLockedBatchEntry))
append_entry app_name entry all_records = elim (lookup app_name all_records) [
  | none ↦ err key_error
  | some entries ↦ ok (insert app_name (entries ++ entry ∷ []) all_records)
]

-- The loop over the records of a node.
unfoldable pub add_records :
    String
    → Dict LastLockedRecord
    → Dict (List LastLockedBatchEntry)
    → Result (Dict (List LastLockedBatchEntry))
unfolding append_entry
add_records node_id [] all_records = ok all_records
add_records node_id ((app_name, r) ∷ rest) all_records = elim r.batch [
  | none ↦ add_records node_id rest all_records
  | some b ↦
      let entry : LastLockedBatchEntry = record {
        node_id = node_id;
        index = r.index;
        chaining_hash = b.chaining_hash;
        lock = b.lock;
      } in
      append_entry app_name entry all_records >>= λ all'. add_records node_id rest all'
]

-- The loop over the answers.
unfoldable pub add_answers :
    List String
    → (String → LastLockedAnswer)
    → List String
    → Dict (List LastLockedBatchEntry)
    → Result (Dict (List LastLockedBatchEntry))
unfolding add_records fetch_node_last_locked_batch_records_or_none
add_answers apps answers [] all_records = ok all_records
add_answers apps answers (node_id ∷ ids) all_records =
    elim (fetch_node_last_locked_batch_records_or_none apps (answers node_id)) [
      | none ↦ add_answers apps answers ids all_records
      | some records ↦
          add_records node_id records all_records >>= λ all'. add_answers apps answers ids all'
    ]

-- Python's stable sort by the index, with the greatest first.
unfoldable pub insert_entry :
    LastLockedBatchEntry → List LastLockedBatchEntry → List LastLockedBatchEntry
insert_entry e [] = e ∷ []
insert_entry e (t ∷ entries) =
    let rest = insert_entry e entries in if leb t.index e.index then e ∷ t ∷ entries else t ∷ rest

unfoldable pub sort_entries : List LastLockedBatchEntry → List LastLockedBatchEntry
unfolding insert_entry
sort_entries [] = []
sort_entries (e ∷ entries) = insert_entry e (sort_entries entries)

unfoldable pub sort_all : Dict (List LastLockedBatchEntry) → Dict (List LastLockedBatchEntry)
unfolding sort_entries
sort_all [] = []
sort_all ((app_name, entries) ∷ rest) = (app_name, sort_entries entries) ∷ sort_all rest

-- `{app_name: [] for app_name in apps}`
unfoldable pub no_entries : List String → Dict (List LastLockedBatchEntry)
no_entries [] = []
no_entries (app_name ∷ apps) = (app_name, []) ∷ no_entries apps

-- `[node_id for node_id in zconfig.NODES if node_id != self_node_id]`
unfoldable pub other_ids : String → List String → List String
other_ids own_id [] = []
other_ids own_id (node_id ∷ ids) =
    let rest = other_ids own_id ids in if str_eq node_id own_id then rest else node_id ∷ rest

unfoldable pub get_network_last_locked_batch_entries_sorted :
    {Key : Type 0}
    → Config Key
    → (String → LastLockedAnswer)
    → Result (Dict (List LastLockedBatchEntry))
unfolding add_answers sort_all no_entries other_ids
get_network_last_locked_batch_entries_sorted c answers = do
  s ← last_state c
  all_records ←
      add_answers c.apps answers (other_ids c.node.id (names_of s.nodes)) (no_entries c.apps)
  ok (sort_all all_records)
