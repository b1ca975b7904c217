-- ===== src/Ingest/Fetch/Answer.antt =====
-- What `fetchLogsWithPolicy` returns.
use parallel_usdp_hyperevm_i.Prelude.{
  eq_of_some_eq, ℕ, zero, suc, ◌+◌, ◌≤◌, ◌≡◌, Bool, arith, some, inl, inr, List, Result, ok, err,
  Bool-cases, Result-cases, true, subst,
}
use parallel_usdp_hyperevm_i.Prelude.Text.{Text}
use parallel_usdp_hyperevm_i.Planner.{BlockRange, plan_block_range, PlanError}
use parallel_usdp_hyperevm_i.Ingest.Types.{IngestionCounters, Log}
use parallel_usdp_hyperevm_i.Ingest.Fetch.{
  FetchOutcome, interrupted, unplanned, rpc_error, Fetched, throw, shrink, retry, react, fetch_loop,
  count_retry, count_reduction,
}
use parallel_usdp_hyperevm_i.Ingest.Fetch.Policy.{react-shrink}
use parallel_usdp_hyperevm_i.Ingest.Fetch.Total.{Reaction-cases}

-- Fetching counts only retries and reductions, and never down.
pub record OnlyRetries (before after : IngestionCounters) : Type 0 where
  pub same_work :
      after
      ≡ record before { rpc_retries = after.rpc_retries; chunk_reductions = after.chunk_reductions }
  pub retries : before.rpc_retries ≤ after.rpc_retries
  pub reductions : before.chunk_reductions ≤ after.chunk_reductions

module _ (get_logs : ℕ → BlockRange → Result Text (List Log)) (aborted : ℕ → Bool)
    (from_block requested_to_block max_retries : ℕ) (indefinitely : Bool) where
  -- The logs are the provider's answer, at some call, for the chunk that is planned from the
  -- returned chunk size, which is at most the one that the loop began with.
  pub record IsAnswer (chunk_size : ℕ) (fetched : Fetched) : Type 0 where
    pub planned :
        plan_block_range from_block requested_to_block fetched.chunk_size ≡ ok fetched.range
    pub call : ℕ
    pub answered : get_logs call fetched.range ≡ ok fetched.logs
    pub within : fetched.chunk_size ≤ chunk_size

  IsAnswer-weaken :
      (smaller chunk_size : ℕ) (fetched : Fetched)
      → smaller ≤ chunk_size
      → IsAnswer smaller fetched
      → IsAnswer chunk_size fetched
  IsAnswer-weaken smaller chunk_size fetched h a = record {
    planned = a.planned;
    call = a.call;
    answered = a.answered;
    within = omega arith;
  }

  -- The runs of the loop, round by round.
  pub data Run : ℕ → ℕ → ℕ → IngestionCounters → FetchOutcome → Type 0 where
    stopped :
        {call chunk_size attempt : ℕ} {counters : IngestionCounters}
        → aborted call ≡ true
        → Run call chunk_size attempt counters (err interrupted, counters)
    refused :
        {call chunk_size attempt : ℕ} {counters : IngestionCounters} {error : PlanError}
        → plan_block_range from_block requested_to_block chunk_size ≡ err error
        → Run call chunk_size attempt counters (err (unplanned error), counters)
    answered :
        {call chunk_size attempt : ℕ} {counters : IngestionCounters} {range : BlockRange}
        {logs : List Log}
        → plan_block_range from_block requested_to_block chunk_size ≡ ok range
        → get_logs call range ≡ ok logs
        → Run call chunk_size attempt counters
            (ok (record { range = range; logs = logs; chunk_size = chunk_size }), counters)
    thrown :
        {call chunk_size attempt : ℕ} {counters : IngestionCounters} {range : BlockRange}
        {message : Text}
        → get_logs call range ≡ err message
        → react message chunk_size attempt max_retries indefinitely ≡ throw
        → Run call chunk_size attempt counters (err (rpc_error message), counters)
    shrunk :
        {call chunk_size attempt smaller : ℕ} {counters : IngestionCounters} {range : BlockRange}
        {message : Text} {outcome : FetchOutcome}
        → get_logs call range ≡ err message
        → react message chunk_size attempt max_retries indefinitely ≡ shrink smaller
        → Run (suc call) smaller 0 (count_reduction counters) outcome
        → Run call chunk_size attempt counters outcome
    retried :
        {call chunk_size attempt : ℕ} {counters : IngestionCounters} {range : BlockRange}
        {message : Text} {outcome : FetchOutcome}
        → get_logs call range ≡ err message
        → react message chunk_size attempt max_retries indefinitely ≡ retry
        → Run (suc call) chunk_size (attempt + 1) (count_retry counters) outcome
        → Run call chunk_size attempt counters outcome

  -- Whatever the loop returns, it has come to by a run.
  pub fetch_loop-Run :
      (fuel call chunk_size attempt : ℕ) (counters : IngestionCounters) (outcome : FetchOutcome)
      → fetch_loop get_logs aborted from_block requested_to_block max_retries indefinitely fuel call
          chunk_size attempt counters
        ≡ some outcome
      → Run call chunk_size attempt counters outcome
  unfolding fetch_loop
  fetch_loop-Run zero call chunk_size attempt counters outcome h = cc
  fetch_loop-Run (suc fuel) call chunk_size attempt counters outcome h =
      elim (Bool-cases (aborted call)) [
        | inl stop ↦
            subst (Run call chunk_size attempt counters)
              (eq_of_some_eq (rw (stop, fetch_loop) at h)) (stopped stop)
        | inr go ↦ elim (Result-cases (plan_block_range from_block requested_to_block chunk_size)) [
          | inr (e, bad) ↦
              subst (Run call chunk_size attempt counters)
                (eq_of_some_eq (rw (go, bad, fetch_loop) at h)) (refused bad)
          | inl (range, planned) ↦ elim (Result-cases (get_logs call range)) [
            | inl (logs, got) ↦
                subst (Run call chunk_size attempt counters)
                  (eq_of_some_eq (rw (go, planned, got, fetch_loop) at h)) (answered planned got)
            | inr (message, failed) ↦
                elim (Reaction-cases (react message chunk_size attempt max_retries indefinitely)) [
                  | inl thrown_again ↦
                      subst (Run call chunk_size attempt counters)
                        (eq_of_some_eq (rw (go, planned, failed, thrown_again, fetch_loop) at h))
                        (thrown failed thrown_again)
                  | inr (inl (smaller, less)) ↦ shrunk failed less (
                      fetch_loop-Run fuel (suc call) smaller 0 (count_reduction counters) outcome
                        (rw (go, planned, failed, less, fetch_loop) at h))
                  | inr (inr again) ↦ retried failed again (
                      fetch_loop-Run fuel (suc call) chunk_size (attempt + 1) (count_retry counters)
                        outcome (rw (go, planned, failed, again, fetch_loop) at h))
                ]
          ]
        ]
      ]

  abbrev Answers : ℕ → FetchOutcome → Type 0
  Answers chunk_size (ok fetched, counters) = IsAnswer chunk_size fetched
  Answers chunk_size (err error, counters) = Unit

  Answers-weaken :
      (smaller chunk_size : ℕ) (outcome : FetchOutcome)
      → smaller ≤ chunk_size
      → Answers smaller outcome
      → Answers chunk_size outcome
  Answers-weaken smaller chunk_size (ok fetched, counters) h a =
      IsAnswer-weaken smaller chunk_size fetched h a
  Answers-weaken smaller chunk_size (err error, counters) h a = tt

  Run-Answers :
      {call chunk_size attempt : ℕ} {counters : IngestionCounters} {outcome : FetchOutcome}
      → Run call chunk_size attempt counters outcome
      → Answers chunk_size outcome
  Run-Answers (stopped e) = tt
  Run-Answers (refused e) = tt
  Run-Answers (answered {call} planned got) = record {
    planned = planned;
    call = call;
    answered = got;
    within = omega arith;
  }
  Run-Answers (thrown e t) = tt
  Run-Answers
        (shrunk {call} {chunk_size} {attempt} {smaller} {counters} {range} {message} {outcome}
          failed less run) =
      Answers-weaken smaller chunk_size outcome
        (omega (
          arith,
          (react-shrink message chunk_size attempt max_retries smaller indefinitely less).1,
        ))
        (Run-Answers run)
  Run-Answers (retried failed again run) = Run-Answers run

  -- A run counts its retries and reductions, and touches no other counter.
  pub Run-OnlyRetries :
      {call chunk_size attempt : ℕ} {counters : IngestionCounters} {outcome : FetchOutcome}
      → Run call chunk_size attempt counters outcome
      → OnlyRetries counters outcome.1
  Run-OnlyRetries (stopped e) = ground arith
  Run-OnlyRetries (refused e) = ground arith
  Run-OnlyRetries (answered planned got) = ground arith
  Run-OnlyRetries (thrown e t) = ground arith
  Run-OnlyRetries (shrunk failed less run) = ground (arith, Run-OnlyRetries run)
  Run-OnlyRetries (retried failed again run) = ground (arith, Run-OnlyRetries run)

  -- What the fetch loop returns, with any fuel, are the logs that the provider answered at some
  -- call for the chunk planned from the returned chunk size, which is at most the one that the loop
  -- began with.
  pub fetch_loop-IsAnswer :
      (fuel call chunk_size attempt : ℕ) (counters after : IngestionCounters) (fetched : Fetched)
      → fetch_loop get_logs aborted from_block requested_to_block max_retries indefinitely fuel call
          chunk_size attempt counters
        ≡ some (ok fetched, after)
      → IsAnswer chunk_size fetched
  fetch_loop-IsAnswer fuel call chunk_size attempt counters after fetched h =
      Run-Answers (fetch_loop-Run fuel call chunk_size attempt counters (ok fetched, after) h)
