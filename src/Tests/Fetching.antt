-- ===== src/Tests/Fetching.antt =====
-- A search by time, and a fetch in batches of two after an answer that fails once.
use parallel_usdp_hyperevm_i.Prelude.{
  if◌then◌else◌, ◌==◌, err, Result, ℕ, ◌+◌, ◌*◌, ◌≡◌, refl, arith, true, [], ◌∷◌, some, none, ok,
  List,
}
use parallel_usdp_hyperevm_i.Prelude.Text.{Text, codes}
use parallel_usdp_hyperevm_i.Blocks.Search.{
  find_block_at_or_after_timestamp, IsFirst, find_block_at_or_after_timestamp-IsFirst,
}
use parallel_usdp_hyperevm_i.Blocks.Fetch.{
  fetch_block_with_policy, RpcBlockHeader, RpcBatchResponse, BatchAnswer, rows, unreachable,
  fetch_blocks_batched,
}
use parallel_usdp_hyperevm_i.Blocks.Fetch.Ordered.{numbers_of, numbers-fetch_blocks_batched}
use parallel_usdp_hyperevm_i.Blocks.Fetch.Total.{fetch_blocks-total}
use parallel_usdp_hyperevm_i.Ingest.Types.{IngestionCounters, StoredBlock, blank_counters}

abbrev time : ℕ → ℕ
time n = 100 + 2 * n

abbrev timestamp_at : ℕ → Result Text ℕ
timestamp_at n = ok (time n)

finds : find_block_at_or_after_timestamp timestamp_at 131 40 ≡ some (ok 16)
unfolding find_block_at_or_after_timestamp
finds = refl

find_block_at_or_after_timestamp-IsFirst_example :
    (found : ℕ) × (find_block_at_or_after_timestamp timestamp_at 131 40 ≡ some (ok found))
    × IsFirst timestamp_at 131 time (λ n. refl) (λ n m h. omega arith) 40 found
find_block_at_or_after_timestamp-IsFirst_example =
    find_block_at_or_after_timestamp-IsFirst timestamp_at 131 time (λ n. refl)
      (λ n m h. omega arith) 40

abbrev row : ℕ → ℕ → RpcBatchResponse
row id number = record {
  id = some id;
  result = some (record {
    number = some number;
    hash = some (codes "0xab");
    parent_hash = codes "0xcd";
    timestamp = 5;
  });
  error = none;
}

abbrev get_batch : ℕ → ℕ → List ℕ → BatchAnswer
get_batch batch call numbers =
    if batch == 0
    then if call == 0
      then unreachable (codes "fetch failed")
      else rows true (codes "200") (row 2 8 ∷ row 1 7 ∷ [])
    else rows true (codes "200") (row 1 9 ∷ [])

abbrev block : ℕ → StoredBlock
block number = record {
  number = number;
  hash = codes "0xab";
  parent_hash = codes "0xcd";
  timestamp = 5;
}

fetches :
    fetch_blocks_batched get_batch 8 (7 ∷ 8 ∷ 9 ∷ []) 2 blank_counters
    ≡ some (ok (block 7 ∷ block 8 ∷ block 9 ∷ []), record blank_counters { rpc_retries = 1 })
unfolding fetch_blocks_batched
fetches = refl

numbers-fetch_blocks_batched_example :
    numbers_of (block 7 ∷ block 8 ∷ block 9 ∷ []) ≡ 7 ∷ 8 ∷ 9 ∷ []
numbers-fetch_blocks_batched_example =
    numbers-fetch_blocks_batched get_batch 8 (7 ∷ 8 ∷ 9 ∷ []) 2 blank_counters
      (record blank_counters { rpc_retries = 1 }) (block 7 ∷ block 8 ∷ block 9 ∷ []) (omega arith)
      fetches

abbrev get_block : ℕ → ℕ → Result Text RpcBlockHeader
get_block number call = err (codes "timeout")

-- A batch size of zero never gets past the first block.
no_batches : fetch_blocks_batched get_batch 8 (7 ∷ 8 ∷ 9 ∷ []) 0 blank_counters ≡ none
unfolding fetch_blocks_batched
no_batches = refl

fetch_blocks-total_example :
    ((outcome : Result Text StoredBlock × IngestionCounters) × (fetch_block_with_policy get_block 8
          7 blank_counters
        ≡ some outcome))
    × ((outcome : Result Text (List StoredBlock) × IngestionCounters) × (fetch_blocks_batched
            get_batch 8
            (7 ∷ 8 ∷ 9 ∷ [])
            2
            blank_counters
          ≡ some outcome))
fetch_blocks-total_example =
    fetch_blocks-total get_block get_batch 8 7 (7 ∷ 8 ∷ 9 ∷ []) 2 blank_counters (omega arith)
