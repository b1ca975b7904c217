-- ===== src/Blocks/Fetch.antt =====
-- src/indexer/service.ts: `fetchBlockWithPolicy`, `fetchBlockBatchWithPolicy` and
-- `fetchBlocksBatched`. `mapWithConcurrency` keeps the order of its values, and the model runs one
-- after another what it starts together. The number and the time of a header stand for their
-- hexadecimal texts.
pub mod Ordered
pub mod Total
use parallel_usdp_hyperevm_i.Prelude.{
  ℕ, zero, suc, ◌+◌, Bool, true, false, not, ◌||◌, ◌==◌, List, [], ◌∷◌, ◌++◌, Option, none, some,
  if◌then◌else◌, Result, ok, err, ◌>>=◌, length,
}
use parallel_usdp_hyperevm_i.Prelude.Text.{Text, codes, decimal_text}
use parallel_usdp_hyperevm_i.Planner.{should_retry_rpc_error}
use parallel_usdp_hyperevm_i.Rpc.Messages.{classify_rpc_error}
use parallel_usdp_hyperevm_i.Ingest.Types.{IngestionCounters, StoredBlock}
use parallel_usdp_hyperevm_i.Ingest.Fetch.{count_retry}
use parallel_usdp_hyperevm_i.Ingest.Store.{is_nonempty}

pub record RpcBlockHeader : Type 0 where
  pub number : Option ℕ
  pub hash : Option Text
  pub parent_hash : Text
  pub timestamp : ℕ

abbrev pub stored_block : ℕ → Text → RpcBlockHeader → StoredBlock
stored_block number hash header = record {
  number = number;
  hash = hash;
  parent_hash = header.parent_hash;
  timestamp = header.timestamp;
}

-- The number and the hash of a header that has both.
abbrev pub mined : Option ℕ → Option Text → Option (ℕ × Text)
mined none hash = none
mined (some number) none = none
mined (some number) (some hash) = if is_nonempty hash then some (number, hash) else none

abbrev pub or_unmined : RpcBlockHeader → Option (ℕ × Text) → Result Text StoredBlock
or_unmined header none = err (codes "RPC returned an unmined block")
or_unmined header (some (number, hash)) = ok (stored_block number hash header)

unfoldable pub as_stored_block : RpcBlockHeader → Result Text StoredBlock
as_stored_block header = or_unmined header (mined header.number header.hash)

pub record RpcBatchResponse : Type 0 where
  pub id : Option ℕ
  pub result : Option RpcBlockHeader
  pub error : Option (Option Text)

-- What a request for a batch leads to: it throws, or answers with a status and a payload, which is
-- a list or a single object that may carry a message.
pub data BatchAnswer : Type 0 where
  unreachable : Text → BatchAnswer
  single : (response_ok : Bool) (status : Text) → Option Text → BatchAnswer
  rows : (response_ok : Bool) (status : Text) → List RpcBatchResponse → BatchAnswer

abbrev pub has_id : ℕ → Option ℕ → Bool
has_id id none = false
has_id id (some other) = other == id

-- `byId`, in which the last row of an id stands.
unfoldable pub row_by_id : ℕ → List RpcBatchResponse → Option RpcBatchResponse
row_by_id id [] = none
row_by_id id (row ∷ rest) = elim (row_by_id id rest) [
  | some later ↦ some later
  | none ↦ if has_id id row.id then some row else none
]

abbrev pub or_message : Text → Option Text → Text
or_message default none = default
or_message default (some message) = message

abbrev pub checked_block : ℕ → RpcBlockHeader → Option (ℕ × Text) → Result Text StoredBlock
checked_block expected_number header none =
    err (codes "Block batch RPC returned an incomplete block")
checked_block expected_number header (some (number, hash)) =
    if number == expected_number
    then ok (stored_block number hash header)
    else err (
        codes "Block batch RPC returned "
        ++ decimal_text number
        ++ codes " for requested block "
        ++ decimal_text expected_number)

abbrev pub block_of_result : ℕ → Option RpcBlockHeader → Result Text StoredBlock
block_of_result expected_number none = err (codes "Block batch RPC returned an incomplete block")
block_of_result expected_number (some header) =
    checked_block expected_number header (mined header.number header.hash)

abbrev pub block_of_row : ℕ → Option RpcBatchResponse → Result Text StoredBlock
block_of_row expected_number none = err (codes "Block batch RPC returned an incomplete block")
block_of_row expected_number (some row) = elim row.error [
  | some message ↦ err (or_message (codes "Block batch RPC failed") message)
  | none ↦ block_of_result expected_number row.result
]

unfoldable pub blocks_of_rows : List RpcBatchResponse → ℕ → List ℕ → Result Text (List StoredBlock)
unfolding row_by_id
blocks_of_rows payload index [] = ok []
blocks_of_rows payload index (expected_number ∷ numbers) =
    block_of_row expected_number (row_by_id (index + 1) payload) >>= λ block.
    blocks_of_rows payload (index + 1) numbers >>= λ blocks. ok (block ∷ blocks)

abbrev pub http_status : Text → Text
http_status status = codes "Block batch RPC returned HTTP " ++ status

unfoldable pub blocks_of_answer : List ℕ → BatchAnswer → Result Text (List StoredBlock)
unfolding blocks_of_rows
blocks_of_answer numbers (unreachable message) = err message
blocks_of_answer numbers (single response_ok status none) = err (http_status status)
blocks_of_answer numbers (single response_ok status (some message)) =
    err (if is_nonempty message then message else http_status status)
blocks_of_answer numbers (rows response_ok status payload) =
    if response_ok then blocks_of_rows payload 0 numbers else err (http_status status)

-- The loop of both policies on fuel: `ask` answers its call, and each call uses up an attempt.
unfoldable pub retry_loop {ℓ} :
    {A : Type ℓ}
    → (ℕ → Result Text A)
    → ℕ
    → ℕ
    → ℕ
    → IngestionCounters
    → Option (Result Text A × IngestionCounters)
unfolding classify_rpc_error should_retry_rpc_error
retry_loop ask max_retries zero attempt counters = none
retry_loop ask max_retries (suc fuel) attempt counters = elim (ask attempt) [
  | ok answer ↦ some (ok answer, counters)
  | err message ↦
      elim (should_retry_rpc_error (classify_rpc_error message) attempt max_retries false) [
        | true ↦ retry_loop ask max_retries fuel (suc attempt) (count_retry counters)
        | false ↦ some (err message, counters)
      ]
]

abbrev pub take {ℓ} : {A : Type ℓ} → ℕ → List A → List A
take zero xs = []
take (suc n) [] = []
take (suc n) (x ∷ xs) = x ∷ take n xs

abbrev pub drop {ℓ} : {A : Type ℓ} → ℕ → List A → List A
drop zero xs = xs
drop (suc n) [] = []
drop (suc n) (x ∷ xs) = drop n xs

abbrev pub cons_batch {ℓ} : {A : Type ℓ} → List A → Option (List (List A)) → Option (List (List A))
cons_batch batch none = none
cons_batch batch (some batches) = some (batch ∷ batches)

-- The batches `blockNumbers.slice(index, index + batchSize)`: the list is what is left from `index`
-- on. The loop has fuel for one step a number, and `none` says that it has not come to its end.
unfoldable pub slices {ℓ} : {A : Type ℓ} → ℕ → ℕ → List A → Option (List (List A))
slices fuel size [] = some []
slices zero size (x ∷ xs) = none
slices (suc fuel) size (x ∷ xs) =
    cons_batch (take size (x ∷ xs)) (slices fuel size (drop size (x ∷ xs)))

module _ (get_block : (block_number call : ℕ) → Result Text RpcBlockHeader) (max_retries : ℕ) where
  unfoldable pub fetch_block_with_policy :
      ℕ → IngestionCounters → Option (Result Text StoredBlock × IngestionCounters)
  unfolding retry_loop as_stored_block
  fetch_block_with_policy block_number counters =
      retry_loop (λ call. get_block block_number call >>= as_stored_block) max_retries
        (suc max_retries) 0 counters

module _ (get_batch : (batch call : ℕ) → List ℕ → BatchAnswer) (max_retries : ℕ) where
  unfoldable pub fetch_block_batch_with_policy :
      ℕ → List ℕ → IngestionCounters → Option (Result Text (List StoredBlock) × IngestionCounters)
  unfolding retry_loop blocks_of_answer
  fetch_block_batch_with_policy batch numbers counters =
      retry_loop (λ call. blocks_of_answer numbers (get_batch batch call numbers)) max_retries
        (suc max_retries) 0 counters

  -- The batches' answers, flattened.
  unfoldable pub fetch_batches :
      ℕ
      → List (List ℕ)
      → IngestionCounters
      → Option (Result Text (List StoredBlock) × IngestionCounters)
  unfolding fetch_block_batch_with_policy
  fetch_batches batch [] counters = some (ok [], counters)
  fetch_batches batch (numbers ∷ rest) counters =
      elim (fetch_block_batch_with_policy batch numbers counters) [
        | none ↦ none
        | some (err message, after) ↦ some (err message, after)
        | some (ok blocks, after) ↦ elim (fetch_batches (suc batch) rest after) [
          | none ↦ none
          | some (err message, last) ↦ some (err message, last)
          | some (ok more, last) ↦ some (ok (blocks ++ more), last)
        ]
      ]

  unfoldable pub fetch_blocks_batched :
      List ℕ → ℕ → IngestionCounters → Option (Result Text (List StoredBlock) × IngestionCounters)
  unfolding fetch_batches slices
  fetch_blocks_batched numbers batch_size counters =
      elim (slices (length numbers) batch_size numbers) [
        | none ↦ none
        | some batches ↦ fetch_batches 0 batches counters
      ]
