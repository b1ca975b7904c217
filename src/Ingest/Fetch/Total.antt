-- ===== src/Ingest/Fetch/Total.antt =====
-- `fetchLogsWithPolicy` ends, and what it returns is the provider's answer for a planned chunk.
use parallel_usdp_hyperevm_i.Prelude.{
  ℕ, zero, suc, ◌+◌, ◌-◌, ◌*◌, ◌<◌, ◌≡◌, refl, Bool, false, arith, some, inl, inr, List, Result, ok,
  err, Bool-cases, Result-cases, ◌⊎◌,
}
use parallel_usdp_hyperevm_i.Prelude.Text.{Text}
use parallel_usdp_hyperevm_i.Planner.{BlockRange, plan_block_range}
use parallel_usdp_hyperevm_i.Ingest.Types.{IngestionCounters, Log}
use parallel_usdp_hyperevm_i.Ingest.Fetch.{
  FetchOutcome, Reaction, throw, shrink, retry, react, fetch_loop, count_retry, count_reduction,
  interrupted, unplanned, rpc_error,
}
use parallel_usdp_hyperevm_i.Ingest.Fetch.Policy.{react-shrink, react-retry}

pub Reaction-cases :
    (r : Reaction) → (r ≡ throw) ⊎ ((smaller : ℕ) × (r ≡ shrink smaller)) ⊎ (r ≡ retry)
Reaction-cases throw = inl refl
Reaction-cases (shrink smaller) = inr (inl (smaller, refl))
Reaction-cases retry = inr (inr refl)

-- The rounds that are still possible, below which no fuel is missing.
abbrev pub rounds_left : ℕ → ℕ → ℕ → ℕ
rounds_left chunk_size attempt max_retries =
    chunk_size * (max_retries + 1) + (max_retries - attempt)

rounds_left-shrink :
    (smaller chunk_size attempt max_retries : ℕ)
    → smaller < chunk_size
    → rounds_left smaller 0 max_retries < rounds_left chunk_size attempt max_retries
rounds_left-shrink smaller chunk_size attempt max_retries h = grind arith

rounds_left-retry :
    (chunk_size attempt max_retries : ℕ)
    → attempt < max_retries
    → rounds_left chunk_size (attempt + 1) max_retries < rounds_left chunk_size attempt max_retries
rounds_left-retry chunk_size attempt max_retries h = omega arith

module _ (get_logs : ℕ → BlockRange → Result Text (List Log)) (aborted : ℕ → Bool)
    (from_block requested_to_block max_retries : ℕ) where
  -- Where rate limits are retried a bounded number of times, the fetch loop comes to an end on
  -- every fuel above the number of rounds that its chunk size and its attempts leave.
  pub fetch_loop-total :
      (fuel call chunk_size attempt : ℕ) (counters : IngestionCounters)
      → rounds_left chunk_size attempt max_retries < fuel
      → (outcome : FetchOutcome) × (fetch_loop get_logs aborted from_block requested_to_block
            max_retries false fuel call chunk_size attempt counters
          ≡ some outcome)
  unfolding fetch_loop
  fetch_loop-total zero call chunk_size attempt counters h = elim h [ ]
  fetch_loop-total (suc fuel) call chunk_size attempt counters h =
      elim (Bool-cases (aborted call)) [
        | inl stop ↦ ((err interrupted, counters), rw (stop, fetch_loop) refl)
        | inr go ↦ elim (Result-cases (plan_block_range from_block requested_to_block chunk_size)) [
          | inr (e, bad) ↦ ((err (unplanned e), counters), rw (go, bad, fetch_loop) refl)
          | inl (range, planned) ↦ elim (Result-cases (get_logs call range)) [
            | inl (logs, got) ↦ (
              (ok (record { range = range; logs = logs; chunk_size = chunk_size }), counters),
              rw (go, planned, got, fetch_loop) refl,
            )
            | inr (message, failed) ↦
                elim (Reaction-cases (react message chunk_size attempt max_retries false)) [
                  | inl thrown ↦ (
                    (err (rpc_error message), counters),
                    rw (go, planned, failed, thrown, fetch_loop) refl,
                  )
                  | inr (inl (smaller, shrunk)) ↦
                      rw (go, planned, failed, shrunk, fetch_loop)
                        (fetch_loop-total fuel (suc call) smaller 0 (count_reduction counters) (
                          omega (
                            arith,
                            rounds_left-shrink smaller chunk_size attempt max_retries
                                (react-shrink message chunk_size attempt max_retries smaller false
                                  shrunk).1,
                          )))
                  | inr (inr again) ↦
                      rw (go, planned, failed, again, fetch_loop)
                        (fetch_loop-total fuel (suc call) chunk_size (attempt + 1)
                          (count_retry counters)
                          (omega (
                            arith,
                            rounds_left-retry chunk_size attempt max_retries
                                (react-retry message chunk_size attempt max_retries again),
                          )))
                ]
          ]
        ]
      ]
