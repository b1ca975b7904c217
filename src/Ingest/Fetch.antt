-- ===== src/Ingest/Fetch.antt =====
-- src/indexer/service.ts: `fetchLogsWithPolicy`, the loop that retries a request and shrinks its
-- chunk. The provider and the abort signal answer by the number of the call, which stands for time.
pub mod Policy
pub mod Total
pub mod Answer
use Prim.Native.Nat.{min}
use parallel_usdp_hyperevm_i.Prelude.{
  ℕ, zero, suc, ◌+◌, ◌-◌, ◌*◌, Bool, true, false, ◌&&◌, List, Option, none, some, ltb,
  if◌then◌else◌, Result, ok, err,
}
use parallel_usdp_hyperevm_i.Prelude.Text.{Text}
use parallel_usdp_hyperevm_i.Planner.{
  BlockRange, PlanError, RpcErrorClass, range_limit, plan_block_range, reduce_chunk_size,
  should_retry_rpc_error,
}
use parallel_usdp_hyperevm_i.Rpc.Messages.{
  classify_rpc_error, provider_range_limit, is_daily_request_quota_error,
}
use parallel_usdp_hyperevm_i.Ingest.Types.{IngestionCounters, Log}

pub data FetchError : Type 0 where
  interrupted : FetchError
  unplanned : PlanError → FetchError
  rpc_error : Text → FetchError

pub record Fetched : Type 0 where
  pub range : BlockRange
  pub logs : List Log
  pub chunk_size : ℕ

-- What the `catch` block does: throw again, go on with a smaller chunk, or ask once more.
pub data Reaction : Type 0 where
  throw : Reaction
  shrink : ℕ → Reaction
  retry : Reaction

abbrev is_range_limit : RpcErrorClass → Bool
is_range_limit range_limit = true
is_range_limit _ = false

-- An advertised limit is never zero, so its presence decides.
abbrev pub reduced_chunk : Option ℕ → ℕ → ℕ
reduced_chunk none chunk_size = reduce_chunk_size chunk_size
reduced_chunk (some limit) chunk_size = min limit (chunk_size - 1)

unfoldable pub react : Text → ℕ → ℕ → ℕ → Bool → Reaction
react message chunk_size attempt max_retries retry_rate_limits_indefinitely =
    let error_class = classify_rpc_error message in
    if is_daily_request_quota_error message
    then throw
    else if is_range_limit error_class && ltb 1 chunk_size
    then shrink (reduced_chunk (provider_range_limit message) chunk_size)
    else if should_retry_rpc_error error_class attempt max_retries retry_rate_limits_indefinitely
    then retry
    else throw

abbrev pub count_retry : IngestionCounters → IngestionCounters
count_retry counters = record counters { rpc_retries = counters.rpc_retries + 1 }

abbrev pub count_reduction : IngestionCounters → IngestionCounters
count_reduction counters = record counters { chunk_reductions = counters.chunk_reductions + 1 }

-- The counters are shared, so they come back beside an error too.
abbrev pub FetchOutcome : Type 0
FetchOutcome = Result FetchError Fetched × IngestionCounters

module _ (get_logs : ℕ → BlockRange → Result Text (List Log)) (aborted : ℕ → Bool)
    (from_block requested_to_block max_retries : ℕ) (retry_rate_limits_indefinitely : Bool) where
  -- One round of `while (true)`; `none` means that the fuel ran out.
  unfoldable pub fetch_loop : ℕ → ℕ → ℕ → ℕ → IngestionCounters → Option FetchOutcome
  fetch_loop zero call chunk_size attempt counters = none
  fetch_loop (suc fuel) call chunk_size attempt counters = elim (aborted call) [
    | true ↦ some (err interrupted, counters)
    | false ↦ elim (plan_block_range from_block requested_to_block chunk_size) [
      | err e ↦ some (err (unplanned e), counters)
      | ok range ↦ elim (get_logs call range) [
        | ok logs ↦
            some (ok (record { range = range; logs = logs; chunk_size = chunk_size }), counters)
        | err message ↦
            elim (react message chunk_size attempt max_retries retry_rate_limits_indefinitely) [
              | throw ↦ some (err (rpc_error message), counters)
              | shrink smaller ↦ fetch_loop fuel (suc call) smaller 0 (count_reduction counters)
              | retry ↦ fetch_loop fuel (suc call) chunk_size (attempt + 1) (count_retry counters)
            ]
      ]
    ]
  ]

-- A number of rounds that is enough where rate limits are not retried for ever.
abbrev pub fetch_fuel : ℕ → ℕ → ℕ
fetch_fuel chunk_size max_retries = (chunk_size + 1) * (max_retries + 1) + 1
