-- ===== src/Ingest/Run/Total.antt =====
-- A run ends, unless rate limits are retried for ever.
use parallel_usdp_hyperevm_i.Prelude.{
  ℕ, zero, suc, ◌+◌, ◌-◌, ◌*◌, ◌<◌, ◌≡◌, refl, false, List, [], ◌∷◌, Option, some, arith, leb, ltb,
  larger, if◌then◌else◌, Result, ok, err, inl, inr, Result-cases, Bool-cases, ◌==◌, leb→le,
}
use parallel_usdp_hyperevm_i.Prelude.Text.{Text}
use parallel_usdp_hyperevm_i.Planner.{BlockRange}
use parallel_usdp_hyperevm_i.Ingest.Types.{IngestionCounters, StoredBlock}
use parallel_usdp_hyperevm_i.Ingest.Fetch.{FetchOutcome, fetch_fuel}
use parallel_usdp_hyperevm_i.Ingest.Fetch.Total.{fetch_loop-total}
use parallel_usdp_hyperevm_i.Ingest.Store.{Database}
use parallel_usdp_hyperevm_i.Ingest.Run.{
  Outside, IngestOptions, IngestError, Ingestion, Step, proceed, throw, unplanned, unfetched,
  plan_ranges, fetch_one, with_fetched, store_fetched, run_batch, run_round, Progress, refused,
  noop, completed, interrupted, failed, ingest_loop, first_block, start, ingest_logs,
  beyond_finalized_head, bad_order, check_checkpoint, or_refuse,
}
use parallel_usdp_hyperevm_i.Ingest.Run.Invariant.{IsGapFree}
use parallel_usdp_hyperevm_i.Ingest.Run.Batches.{Step-cases}
use parallel_usdp_hyperevm_i.Ingest.Run.Completion.{run_round-BatchKeeps, start-IsGapFree}

fuel_enough :
    (chunk_size max_retries : ℕ)
    → chunk_size * (max_retries + 1) + (max_retries - 0) < fetch_fuel chunk_size max_retries
fuel_enough chunk_size max_retries = grind arith

module _ (outside : Outside) (options : IngestOptions)
    (finite : options.retry_rate_limits_indefinitely ≡ false) where
  open options use {to_block}

  fetch_one-total :
      (round index batch_chunk : ℕ) (planned : BlockRange) (counters : IngestionCounters)
      → (outcome : FetchOutcome) × (fetch_one outside options round index batch_chunk planned
            counters
          ≡ some outcome)
  fetch_one-total round index batch_chunk planned counters = rw finite (
      fetch_loop-total (outside.get_logs round index) (outside.aborted_fetch round index)
        planned.from_block planned.to_block options.max_retries
        (fetch_fuel batch_chunk options.max_retries) 0 batch_chunk 0 counters
        (fuel_enough batch_chunk options.max_retries))

  run_batch-total :
      (round index batch_chunk : ℕ) (ranges : List BlockRange) (s : Ingestion)
      → (step : Step) × (run_batch outside options round index batch_chunk ranges s ≡ some step)
  unfolding run_batch
  run_batch-total round index batch_chunk [] s = (proceed s, refl)
  run_batch-total round index batch_chunk (planned ∷ rest) s =
      let (outcome, e) = fetch_one-total round index batch_chunk planned s.counters in
      by_outcome outcome e
        (λ (s' : Ingestion). run_batch-total round (suc index) batch_chunk rest s')
    where
      by_outcome :
          (outcome : FetchOutcome)
          → fetch_one outside options round index batch_chunk planned s.counters ≡ some outcome
          → ((s' : Ingestion)
              → (step : Step) × (run_batch outside options round (suc index) batch_chunk rest s'
                  ≡ some step))
          → (step : Step) × (run_batch outside options round index batch_chunk (planned ∷ rest) s
              ≡ some step)
      by_outcome (err error, counters) e later =
          (throw (unfetched error) (record s { counters = counters }), rw (e, run_batch) refl)
      by_outcome (ok fetched, counters) e later =
          elim (Step-cases (
            store_fetched outside options round index
              (with_fetched outside options s fetched counters) fetched)) [
                | inr (error, s', thrown) ↦ (throw error s', rw (e, thrown, run_batch) refl)
                | inl (s', stored) ↦
                    elim (Bool-cases (fetched.range.to_block == planned.to_block)) [
                      | inl whole ↦ rw (e, stored, whole, run_batch) (later s')
                      | inr cut ↦ (proceed s', rw (e, stored, cut, run_batch) refl)
                    ]
              ]

  run_round-total :
      (round : ℕ) (s : Ingestion) → (step : Step) × (run_round outside options round s ≡ some step)
  unfolding run_round
  run_round-total round s =
      elim (Result-cases (
        plan_ranges (larger 1 options.fetch_concurrency) s.next_block to_block
          s.active_chunk_size)) [
            | inr (error, bad) ↦ (throw (unplanned error) s, rw (bad, run_round) refl)
            | inl (ranges, planned) ↦
                rw (planned, run_round) (run_batch-total round 0 s.active_chunk_size ranges s)
          ]

  ingest_loop-total :
      (fuel round first : ℕ) (s : Ingestion)
      → IsGapFree first to_block s
      → to_block + 1 - s.next_block < fuel
      → (progress : Progress) × (ingest_loop outside options fuel round s ≡ some progress)
  unfolding ingest_loop
  ingest_loop-total zero round first s g h = elim h [ ]
  ingest_loop-total (suc fuel) round first s g h = elim (Bool-cases (leb s.next_block to_block)) [
    | inr reached ↦ (completed s, rw (reached, ingest_loop) refl)
    | inl below ↦ elim (Bool-cases (outside.aborted round)) [
      | inl stopped ↦ (interrupted s, rw (below, stopped, ingest_loop) refl)
      | inr going ↦
          let (step, ran) = run_round-total round s in
          let kept =
            run_round-BatchKeeps outside options first round s step g (leb→le _ _ below) ran in
          elim (Step-cases step) [
            | inr (error, s', thrown) ↦ (
              if outside.aborted_in_catch round then interrupted s' else failed error s',
              rw (below, going, ran, thrown, ingest_loop) refl,
            )
            | inl (s', on) ↦
                rw (below, going, ran, on, ingest_loop)
                  (ingest_loop-total fuel (suc round) first s' (rw on at kept).0
                    (omega (arith, (rw on at kept).1, leb→le s.next_block to_block below)))
          ]
    ]
  ]

  or_refuse-total :
      (checked : Result IngestError (Unit {0})) (rest : Option Progress)
      → (progress : Progress) × (rest ≡ some progress)
      → (progress : Progress) × (or_refuse outside options checked rest ≡ some progress)
  or_refuse-total (err error) rest h = (refused error, refl)
  or_refuse-total (ok done) rest h = h

  begun-total :
      (database : Database)
      → 0 < options.chunk_size
      → (progress : Progress) × ((if ltb to_block (first_block outside options database.checkpoint)
            then some (noop (first_block outside options database.checkpoint))
            else ingest_loop outside options
                (to_block + 2 - first_block outside options database.checkpoint)
                0
                (start outside options database))
          ≡ some progress)
  begun-total database sized =
      elim (Bool-cases (ltb to_block (first_block outside options database.checkpoint))) [
        | inl past ↦ (noop (first_block outside options database.checkpoint), rw past refl)
        | inr below ↦ rw below (
            ingest_loop-total (to_block + 2 - first_block outside options database.checkpoint) 0
              (first_block outside options database.checkpoint) (start outside options database)
              (start-IsGapFree outside options database sized (ground arith)) (ground arith))
      ]

  -- Where rate limits are retried a bounded number of times and the chunk size is positive, a call
  -- of `ingestLogs` comes to an end, whatever the provider, the abort signal and the database
  -- answer.
  pub ingest_logs-total :
      (block_at : ℕ → Result Text StoredBlock) (finalized_head : ℕ) (database : Database)
      → 0 < options.chunk_size
      → (progress : Progress) × (ingest_logs outside options block_at finalized_head database
          ≡ some progress)
  unfolding ingest_logs
  ingest_logs-total block_at finalized_head database sized =
      elim (Bool-cases (ltb finalized_head to_block)) [
        | inl beyond ↦ (refused beyond_finalized_head, rw beyond refl)
        | inr final ↦ elim (Bool-cases (ltb to_block options.from_block)) [
          | inl bad ↦ (refused bad_order, rw (final, bad) refl)
          | inr good ↦
              rw (final, good)
                (or_refuse-total (check_checkpoint outside options block_at database.checkpoint) _
                  (begun-total database sized))
        ]
      ]
