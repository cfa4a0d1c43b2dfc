-- ===== src/Tests/Switching.antt =====
-- A switch of the sequencer approved by two nodes of three, and a chunk stored and read again.
use zsequencer.Prelude.{◌≡◌, refl, ℕ, String, true, none, [], ◌∷◌, List}
use mathlib.Core.List.{Memᴰ}
use zsequencer.Errors.{ok}
use zsequencer.BatchSequence
use zsequencer.BatchSequence.{BatchSequence}
use zsequencer.Switch.{SwitchProof, SwitchSettings}
use zsequencer.Snapshot.{Storage, store_in, finish_writes, load_file}
use zsequencer.Snapshot.Store.{chunk_of, load_file-store_in, load_file-pending}
use zsequencer.Tests.Sequence.{three, three-IsValid}

abbrev proof_of : String → SwitchProof
proof_of node_id = record { node_id = node_id; sequencer_id = "s"; timestamp = 5; signature = "" }

abbrev proofs : List SwitchProof
proofs = proof_of "m" ∷ proof_of "n" ∷ []

abbrev pub settings : SwitchSettings ℕ
settings = record {
  nodes =
      ("m", record { stake = 10; public_key_g2 = 0 })
      ∷ ("n", record { stake = 10; public_key_g2 = 0 })
      ∷ ("s", record { stake = 10; public_key_g2 = 0 })
      ∷ [];
  total_stake = 30;
  threshold_percent = 60;
  dispute_message = λ sequencer_id timestamp. sequencer_id;
  is_bls_sig_verified = λ signature message key. true;
  clock = λ p. 9;
}

abbrev storage : Storage
storage = record { chunks = []; last_persisted_index = none; disk = λ i. none; pending = [] }

load_file-store_in_example :
    load_file (finish_writes (store_in storage three)) (chunk_of three) ≡ ok three
load_file-store_in_example = load_file-store_in storage three refl three-IsValid

load_file-pending_example :
    Memᴰ (chunk_of three) (store_in storage three).chunks
    × (load_file (store_in storage three) (chunk_of three) ≡ ok BatchSequence.empty)
    × ¬ (load_file (store_in storage three) (chunk_of three) ≡ ok three)
load_file-pending_example = load_file-pending storage three refl refl
