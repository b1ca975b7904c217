-- ===== src/Tests/Rpc.antt =====
-- Provider errors, failover and retries at concrete answers.
use parallel_usdp_hyperevm_i.Prelude.{
  ℕ, zero, suc, ◌≡◌, refl, Bool, true, false, List, [], ◌∷◌, some, arith, ok, err, Result, length,
  String,
}
use parallel_usdp_hyperevm_i.Prelude.Text.{Text, codes}
use parallel_usdp_hyperevm_i.Planner.{should_retry_rpc_error, plan_block_range, BlockRange}
use parallel_usdp_hyperevm_i.Rpc.Messages.{
  is_daily_request_quota_error, classify_rpc_error, provider_range_limit,
}
use parallel_usdp_hyperevm_i.Ingest.Fetch.{react, Fetched, FetchOutcome, fetch_loop}
use parallel_usdp_hyperevm_i.Rpc.Redaction.{provider_error_message}
use parallel_usdp_hyperevm_i.Rpc.Redaction.Safe.{url_free, provider_error_message-url_free}
use parallel_usdp_hyperevm_i.Rpc.Failover.{RpcProviderCandidate, run_with_provider_failover}
use parallel_usdp_hyperevm_i.Rpc.Failover.Order.{Ends, run_with_provider_failover-Ends}
use parallel_usdp_hyperevm_i.Ingest.Types.{IngestionCounters, blank_counters, Log}
use parallel_usdp_hyperevm_i.Ingest.Fetch.Total.{fetch_loop-total}
use parallel_usdp_hyperevm_i.Ingest.Fetch.Answer.{IsAnswer, fetch_loop-IsAnswer}

provider_error_message-url_free_example :
    url_free (provider_error_message (codes "502 from https://a.io/v2/secret, retry")) ≡ true
provider_error_message-url_free_example =
    provider_error_message-url_free (codes "502 from https://a.io/v2/secret, retry")

abbrev provider : String → RpcProviderCandidate
provider id = record { id = id; rpc_url = "https://x"; chunk_size = 50; request_interval_ms = 1500 }

-- The first provider has used up its quota.
abbrev operation : ℕ → RpcProviderCandidate → Result Text ℕ
operation zero p = err (codes "Daily request limit reached at https://a.io/key")
operation (suc n) p = ok 7

failed_over : (run_with_provider_failover operation (provider "a" ∷ provider "b" ∷ [])).0 ≡ ok 7
unfolding run_with_provider_failover is_daily_request_quota_error provider_error_message
failed_over = refl

run_with_provider_failover-Ends_example :
    Ends operation 0
      (provider "a" ∷ provider "b" ∷ [])
      (run_with_provider_failover operation (provider "a" ∷ provider "b" ∷ [])).0
      (length (run_with_provider_failover operation (provider "a" ∷ provider "b" ∷ [])).1)
run_with_provider_failover-Ends_example =
    run_with_provider_failover-Ends operation (provider "a") (provider "b" ∷ [])

-- The provider first limits the range, then the rate, and then answers.
abbrev get_logs : ℕ → BlockRange → Result Text (List Log)
get_logs zero range = err (codes "limited to a 10 block range")
get_logs (suc zero) range = err (codes "HTTP 429")
get_logs (suc (suc n)) range = ok []

abbrev never : ℕ → Bool
never call = false

abbrev fetched : Fetched
fetched = record { range = record { from_block = 100; to_block = 109 }; logs = []; chunk_size = 10 }

abbrev counted : IngestionCounters
counted = record blank_counters { rpc_retries = 1; chunk_reductions = 1 }

fetched_at_last :
    fetch_loop get_logs never 100 500 5 false 400 0 50 0 blank_counters ≡ some (ok fetched, counted)
unfolding fetch_loop plan_block_range react should_retry_rpc_error classify_rpc_error
    is_daily_request_quota_error provider_range_limit
fetched_at_last = refl

fetch_loop-IsAnswer_example : IsAnswer get_logs never 100 500 5 false 50 fetched
fetch_loop-IsAnswer_example =
    fetch_loop-IsAnswer get_logs never 100 500 5 false 400 0 50 0 blank_counters counted fetched
      fetched_at_last

fetch_loop-total_example :
    (outcome : FetchOutcome) × (fetch_loop get_logs never 100 500 5 false 400 0 50 0 blank_counters
      ≡ some outcome)
fetch_loop-total_example =
    fetch_loop-total get_logs never 100 500 5 400 0 50 0 blank_counters (omega arith)
