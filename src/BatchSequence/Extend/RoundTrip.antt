-- ===== src/BatchSequence/Extend/RoundTrip.antt =====
-- Writing a sequence to a chunk and reading it back.
use zsequencer.Prelude.{◌≡◌, arith}
use zsequencer.Errors.{ok}
use zsequencer.BatchSequence.{BatchSequence, batches_size}
use zsequencer.BatchSequence.Extend.{to_mapping, from_mapping}

-- A sequence whose size is that of its batches is read back from its mapping as it was written.
pub from_mapping-to_mapping :
    (s : BatchSequence) → s.size ≡ batches_size s.batches → from_mapping (to_mapping s) ≡ ok s
unfolding from_mapping to_mapping
from_mapping-to_mapping s h = ground arith
