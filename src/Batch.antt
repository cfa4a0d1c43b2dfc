-- ===== src/Batch.antt =====
-- A batch of transactions with its chaining hash and its signatures (common/batch.py). Every batch
-- that the code builds or loads has a body and a chaining hash, so these two keys of the dict are
-- plain fields here, and the keys that promotion adds later are options.
use Prim.Native.String.{len}
use zsequencer.Prelude.{ℕ, String, Option, List}
use zsequencer.State.{OperationalState}

pub record Batch : Type 0 where
  pub body : String
  pub chaining_hash : String
  pub parent_index : Option ℕ
  pub next_index : Option ℕ
  pub timestamp : Option ℕ
  pub locked_signature : Option String
  pub locked_nonsigners : Option (List String)
  pub locked_tag : Option ℕ
  pub finalized_signature : Option String
  pub finalized_nonsigners : Option (List String)
  pub finalized_tag : Option ℕ

-- `len(text.encode("utf-8"))`. Sizes are whole bytes here; the source divides them by 1024, which
-- is exact on floats, and compares them with limits divided alike.
unfoldable pub get_utf8_size : String → ℕ
get_utf8_size text = len text

unfoldable pub get_batch_size : Batch → ℕ
get_batch_size batch = get_utf8_size batch.body

-- The batch is `none` where the source has an empty dict.
pub record BatchRecord : Type 0 where
  pub batch : Option Batch
  pub index : ℕ
  pub state : OperationalState
