-- ===== src/Lib.antt =====
-- The ordering of batches in zsequencer: how nodes pool batches, how the sequencer chains them, how
-- signatures of a quorum lock and finalize them, and how they are cut, joined, stored and switched.
--
-- A node pools the bodies that it is sent (Db.antt, Db/Pool.antt) and sends them to the sequencer,
-- which appends them to the chain of the app (Db/Chain.antt) and answers with sequenced bodies that
-- the node appends alike. From the states that nodes report the sequencer chooses a sync point
-- (SyncPoint.antt), has it signed, and each node promotes its batches on the signature
-- (Db/Promotion.antt) after the check of the quorum (Quorum.antt). Finalized batches are written to
-- chunk files (Snapshot.antt) and pruned from memory. A change of the sequencer returns what is not
-- locked to the pool (Db/Latency.antt).
--
-- The files and the code they are about:
--   State.antt             common/state.py
--   ExtendedInt.antt       common/extended_int.py; its order in ExtendedInt/Order.antt
--   Batch.antt             common/batch.py (`Batch`, `get_batch_size_kb`, `BatchRecord`)
--   BatchSequence.antt     common/batch_sequence.py: state, readers, `append` and `promote`; the
--                          invariant is in Validity, reading by index in Lookup, promotion in Promote
--   BatchSequence/Filter.antt   `filter` and `truncate_by_size`, with their proofs below it
--   BatchSequence/Extend.antt   `extend`, `to_mapping` and `from_mapping`
--   RateLimit.antt         common/rate_limit.py
--   Snapshot.antt          common/snapshot_manager.py; a stored chunk in Snapshot/Store
--   Network.antt           what the code takes from config.py, utils and the libraries
--   Quorum.antt            common/bls.py, `is_sync_point_signature_verified`
--   Db.antt                common/db.py: state, pool and chain; Db/Promotion.antt has
--                          `promote_batches`, `_store_snapshot` and `_prune_old_finalized_batches`,
--                          Db/Latency.antt the latency queue and `reinitialize_sequenced_batches`
--   SyncPoint.antt         sequencer/tasks.py, `find_locked_sync_point` and
--                          `find_finalized_sync_point`, with the node states of common/db.py
--   Switch.antt            node/switch.py: the approval of a switch and the next sequencer;
--                          Switch/Sync has the sync with the latest locks of the other nodes, and
--                          Switch/Change `switch_to_sequencer`, Switch/Dispute the gathering of
--                          disputes and `send_dispute_requests`
--   Db/Query.antt, Db/Startup.antt   the rest of common/db.py: the readers over the chunk files and
--                          the memory, the flags of censored apps, start, new apps and shutdown;
--                          Db/Valid.antt has what keeps the sequences of all apps valid
--   Config.antt            config.py and schema.py: the history of network states, the roles of the
--                          nodes, the sequencer, the flags and the limits that a node computes from
--                          the bandwidth; the receive limit of common/db.py is a parameter of
--                          Network.antt
--   SequencerManager.antt  common/sequencer_manager.py
--   Guards.antt            common/utils.py and common/auth.py
--   NodeTasks.antt         node/tasks.py and node/rate_limit.py; `sign_sync_point` in NodeTasks/Sign
--   NodeRoutes.antt        node/routers.py
--   SequencerRoutes.antt   sequencer/routers.py and sequencer/rate_limit.py
--   Errors.antt            common/errors.py, and exceptions as values
--   Prelude.antt, Dict.antt, Distinct.antt, Bisect.antt   shared notation, and Python's dict, set
--                          and bisect
--   Tests.antt             runs on small inputs
--
-- Conventions. A dict is a list of entries in the order of insertion, and a method that changes an
-- object returns the changed one. An exception is an error value of `Result`, which
-- ends the call; what the call had changed before it is not followed, but where the code catches
-- exceptions or a route leaves a changed database (NodeTasks.antt, NodeRoutes.antt): there a run of
-- statements keeps the state at the statement that raises, and a promotion that raises after its
-- updates keeps them (Db/Promotion/Outcome). Indices are natural
-- numbers, and integers where the source can go below 0 (`before_index_offset`). Sizes and limits
-- are whole bytes; the source divides both by 1024, which is exact on floats. A clock reading is an
-- argument. A comparison of a share of the stake in percent is multiplied out, and a total stake of
-- 0 raises as the division does. A write of a file that `asyncio.create_task` starts is pending
-- until it is done. The binary search runs on fuel, the length of the list, which is enough since
-- each round shortens the range. The hash, the signature scheme, the rendering of a signed message
-- and the network's state by tag are parameters.
--
-- The loops over chunk files, over finalized signatures and over the pages of a peer run on fuel and
-- give nothing when it is used up; the fuel is the first index in memory, the number of batches of
-- the app's sequence, or the number of indices up to the one that the peer claims, each with what a
-- round needs beside it. The answers of other nodes are arguments, and so are the sets in which
-- `asyncio.wait` finds the requests done.
--
-- Not modelled: the transport of requests and answers over HTTP, the background tasks, the
-- reading of the configuration, the registries of nodes and contracts, `fetch_network_state`, which
-- updates shared dicts in place, logging with the file that `save_log` writes during a promotion, and the fault simulator.
pub mod Prelude
pub mod State
pub mod Errors
pub mod ExtendedInt
pub mod Dict
pub mod Distinct
pub mod Bisect
pub mod RateLimit
pub mod Snapshot
pub mod Network
pub mod Quorum
pub mod Db
pub mod SyncPoint
pub mod Switch
mod Tests
pub mod Batch
pub mod BatchSequence
pub mod Config
pub mod SequencerManager
pub mod Guards
pub mod NodeTasks
pub mod NodeRoutes
pub mod SequencerRoutes
