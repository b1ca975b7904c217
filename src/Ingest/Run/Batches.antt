-- ===== src/Ingest/Run/Batches.antt =====
-- The invariant of a run through a batch of requests.
use parallel_usdp_hyperevm_i.Prelude.{
  ℕ, zero, suc, ◌+◌, ◌≤◌, ◌<◌, ◌≡◌, refl, List, [], ◌∷◌, Option, none, some, arith, Result, ok, err,
  inl, inr, Result-cases, Bool-cases, ◌==◌, subst, ap, ltb, >>=-eq-ok, ok-injective, eq_of_some_eq,
  ==→eq, ◌⊎◌, ◌||◌, ◌∙◌, sym,
}
use parallel_usdp_hyperevm_i.Planner.{BlockRange}
use parallel_usdp_hyperevm_i.Planner.Chunk.{plan_block_range_bounds}
use parallel_usdp_hyperevm_i.Ingest.Types.{IngestionCounters, StoredBlock}
use parallel_usdp_hyperevm_i.Ingest.Fetch.{Fetched, FetchOutcome, fetch_fuel}
use parallel_usdp_hyperevm_i.Ingest.Fetch.Answer.{
  fetch_loop-IsAnswer, fetch_loop-Run, Run-OnlyRetries,
}
use parallel_usdp_hyperevm_i.Ingest.Store.Chunk.{move_checkpoint, persist_chunk}
use parallel_usdp_hyperevm_i.Ingest.Store.Atomic.{
  persist_chunk_effect, blocks_covered-persist_chunk,
}
use parallel_usdp_hyperevm_i.Ingest.Run.{
  IngestError, Outside, IngestOptions, Ingestion, Step, proceed, throw, store_fetched, get_anchor,
  count_logs, fetch_one, with_fetched, run_batch, plan_ranges,
}
use parallel_usdp_hyperevm_i.Planner.Coverage.{contains, covered}
use parallel_usdp_hyperevm_i.Ingest.Store.{Database, PersistError}
use parallel_usdp_hyperevm_i.Ingest.Run.Invariant.{
  IsGapFree, IsGapFree-counters, Keeps, PointsAt, PointsAt-of_some, after_persist-Keeps,
}

-- The ranges follow on one another from `next` on, and none passes the end.
abbrev pub IsChained : ℕ → ℕ → List BlockRange → Type 0
IsChained next to_block [] = Unit
IsChained next to_block (range ∷ rest) =
    (range.from_block ≡ next)
    × (range.from_block ≤ range.to_block)
    × (range.to_block ≤ to_block)
    × IsChained (range.to_block + 1) to_block rest

-- A batch is a chain of chunks that begins at the next block.
pub plan_ranges-IsChained :
    (count from_block to_block chunk_size : ℕ) (ranges : List BlockRange)
    → plan_ranges count from_block to_block chunk_size ≡ ok ranges
    → IsChained from_block to_block ranges
unfolding plan_ranges
plan_ranges-IsChained zero from_block to_block chunk_size ranges h =
    subst (IsChained from_block to_block) (ok-injective h) tt
plan_ranges-IsChained (suc count) from_block to_block chunk_size ranges h =
    elim (Bool-cases (ltb to_block from_block)) [
      | inl past ↦
          subst (IsChained from_block to_block) (ok-injective (rw (past, plan_ranges) at h)) tt
      | inr left ↦
          let (range, planned, more) = >>=-eq-ok _ _ (rw (left, plan_ranges) at h) in
          let (rest, planned_rest, e) = >>=-eq-ok _ _ more in
          let bounds = plan_block_range_bounds from_block to_block chunk_size range planned in
          subst (IsChained from_block to_block) {x = range ∷ rest} (ok-injective e) (
            bounds.0,
            omega arith,
            bounds.2,
            plan_ranges-IsChained count (range.to_block + 1) to_block chunk_size rest planned_rest,
          )
    ]

-- What a batch has kept, and how far it has come.
abbrev pub BatchKeeps : ℕ → ℕ → ℕ → Step → Type 0
BatchKeeps first to_block low (proceed s) = IsGapFree first to_block s × (low ≤ s.next_block)
BatchKeeps first to_block low (throw error s) = IsGapFree first to_block s

pub Step-cases :
    (step : Step)
    → ((s : Ingestion) × (step ≡ proceed s))
      ⊎ ((error : IngestError) × (s : Ingestion) × (step ≡ throw error s))
Step-cases (proceed s) = inl (s, refl)
Step-cases (throw error s) = inr (error, s, refl)

module _ (outside : Outside) (options : IngestOptions) (first : ℕ) where
  open options use {to_block}

  abbrev persist :
      ℕ
      → ℕ
      → Ingestion
      → Fetched
      → List StoredBlock
      → Option StoredBlock
      → Result PersistError Database × IngestionCounters
  persist round index s fetched blocks anchor =
      persist_chunk outside.decode_event_log options.decoders options.known_topics options.chain_id
        s.database options.run_id fetched.range fetched.logs blocks anchor
        (outside.fault round index) (count_logs outside options s.counters fetched.logs)

  persisted :
      (s : Ingestion) (fetched : Fetched) (round index : ℕ) (blocks : List StoredBlock)
      (anchor : Option StoredBlock) (stored : Database)
      → (persist round index s fetched blocks anchor).0 ≡ ok stored
      → PointsAt (fetched.range.to_block + 1) stored.checkpoint
        × ((b : ℕ)
            → covered b stored.coverage
              ≡ (contains b fetched.range || covered b s.database.coverage))
  persisted s fetched round index blocks anchor stored e =
      let effect =
        persist_chunk_effect outside.decode_event_log options.decoders options.known_topics
          options.chain_id s.database options.run_id fetched.range fetched.logs blocks anchor
          (outside.fault round index) (count_logs outside options s.counters fetched.logs)
          (persist round index s fetched blocks anchor).1 stored
          (λ i. (e i, (persist round index s fetched blocks anchor).1)) in
      (
        unfold move_checkpoint in
            PointsAt-of_some outside options first to_block stored.checkpoint _ effect.0,
        effect.1,
      )

  store_fetched-Keeps :
      (round index : ℕ) (s : Ingestion) (fetched : Fetched)
      → IsGapFree first to_block s
      → fetched.range.from_block ≡ s.next_block
      → fetched.range.from_block ≤ fetched.range.to_block
      → fetched.range.to_block ≤ to_block
      → Keeps first to_block
          (fetched.range.to_block + 1)
          (store_fetched outside options round index s fetched)
  unfolding store_fetched
  store_fetched-Keeps round index s fetched g from ordered inside =
      elim (Result-cases (outside.get_blocks round index fetched.logs)) [
        | inr (message, failed) ↦ rw (failed, store_fetched) g
        | inl (blocks, got) ↦
            elim (Result-cases (get_anchor outside options round index s.counters fetched.range)) [
              | inr (message, failed) ↦ rw (got, failed, store_fetched) g
              | inl (anchor, anchored) ↦
                  rw (got, anchored, store_fetched)
                    (after_persist-Keeps outside options first to_block s fetched _ g from ordered
                      inside
                      (blocks_covered-persist_chunk outside.decode_event_log options.decoders
                        options.known_topics options.chain_id s.database options.run_id
                        fetched.range fetched.logs blocks anchor (outside.fault round index)
                        (count_logs outside options s.counters fetched.logs))
                      (λ stored e. persisted s fetched round index blocks anchor stored e))
            ]
      ]

  Keeps-proceed :
      (step : Step) (next : ℕ) (s : Ingestion)
      → Keeps first to_block next step
      → step ≡ proceed s
      → IsGapFree first to_block s × (s.next_block ≡ next)
  Keeps-proceed step next s k e = rw e at k

  Keeps-throw :
      (step : Step) (next : ℕ) (error : IngestError) (s : Ingestion)
      → Keeps first to_block next step
      → step ≡ throw error s
      → IsGapFree first to_block s
  Keeps-throw step next error s k e = rw e at k

  -- The request of one planned range leaves the number of covered blocks alone.
  fetched_counters :
      (round index batch_chunk : ℕ) (planned : BlockRange) (counters : IngestionCounters)
      (outcome : FetchOutcome)
      → fetch_one outside options round index batch_chunk planned counters ≡ some outcome
      → outcome.1.blocks_covered ≡ counters.blocks_covered
  fetched_counters round index batch_chunk planned counters outcome h =
      ap (λ (c : IngestionCounters). c.blocks_covered)
        (Run-OnlyRetries (outside.get_logs round index) (outside.aborted_fetch round index)
          planned.from_block planned.to_block options.max_retries
          options.retry_rate_limits_indefinitely
          (fetch_loop-Run (outside.get_logs round index) (outside.aborted_fetch round index)
            planned.from_block planned.to_block options.max_retries
            options.retry_rate_limits_indefinitely (fetch_fuel batch_chunk options.max_retries) 0
            batch_chunk 0 counters outcome h)).same_work

  -- The chunk that was fetched begins where it was planned, and ends there or earlier.
  fetched_bounds :
      (round index batch_chunk : ℕ) (planned : BlockRange) (counters after : IngestionCounters)
      (fetched : Fetched)
      → fetch_one outside options round index batch_chunk planned counters
        ≡ some (ok fetched, after)
      → (fetched.range.from_block ≡ planned.from_block)
        × (fetched.range.from_block ≤ fetched.range.to_block)
        × (fetched.range.to_block ≤ planned.to_block)
        × (0 < fetched.chunk_size)
  fetched_bounds round index batch_chunk planned counters after fetched h =
      let answer =
        fetch_loop-IsAnswer (outside.get_logs round index) (outside.aborted_fetch round index)
          planned.from_block planned.to_block options.max_retries
          options.retry_rate_limits_indefinitely (fetch_fuel batch_chunk options.max_retries) 0
          batch_chunk 0 counters after fetched h in
      let bounds =
        plan_block_range_bounds planned.from_block planned.to_block fetched.chunk_size fetched.range
          answer.planned in
      (bounds.0, omega arith, bounds.2, omega arith)

  -- One round of the `for` loop, given what the rest of the batch does.
  module _ (round index batch_chunk low : ℕ) (planned : BlockRange) (rest : List BlockRange)
      (s : Ingestion) (step : Step) (g : IsGapFree first to_block s)
      (above : low ≤ s.next_block + 1) (chained : IsChained s.next_block to_block (planned ∷ rest))
      (h : run_batch outside options round index batch_chunk (planned ∷ rest) s ≡ some step)
      (later : (s' : Ingestion)
        → IsGapFree first to_block s'
        → low ≤ s'.next_block
        → IsChained s'.next_block to_block rest
        → run_batch outside options round (suc index) batch_chunk rest s' ≡ some step
        → BatchKeeps first to_block low step) where
    batch_fetched :
        (fetched : Fetched) (counters : IngestionCounters)
        → fetch_one outside options round index batch_chunk planned s.counters
          ≡ some (ok fetched, counters)
        → BatchKeeps first to_block low step
    unfolding run_batch
    batch_fetched fetched counters e =
        let bounds = fetched_bounds round index batch_chunk planned s.counters counters fetched e in
        let s1 = with_fetched outside options s fetched counters in
        let g1 =
          IsGapFree-counters outside options first to_block s counters fetched.chunk_size g
            (fetched_counters round index batch_chunk planned s.counters _ e) bounds.3 in
        let kept =
          store_fetched-Keeps round index s1 fetched g1 (bounds.0 ∙ chained.0) bounds.1
            (omega arith) in
        elim (Step-cases (store_fetched outside options round index s1 fetched)) [
          | inr (error, s', thrown) ↦
              subst (BatchKeeps first to_block low) {x = throw error s'}
                (eq_of_some_eq (rw (e, thrown, run_batch) at h))
                (Keeps-throw _ (fetched.range.to_block + 1) error s' kept thrown)
          | inl (s', stored) ↦
              let (g', reached) = Keeps-proceed _ (fetched.range.to_block + 1) s' kept stored in
              elim (Bool-cases (fetched.range.to_block == planned.to_block)) [
                | inl whole ↦
                    later s' g' (omega arith)
                      (subst (λ (n : ℕ). IsChained n to_block rest)
                        (ap (λ (n : ℕ). n + 1) (sym (==→eq _ _ whole)) ∙ sym reached) chained.3)
                      (rw (e, stored, whole, run_batch) at h)
                | inr cut ↦
                    subst (BatchKeeps first to_block low) {x = proceed s'}
                      (eq_of_some_eq (rw (e, stored, cut, run_batch) at h)) (g', omega arith)
              ]
        ]

    batch_cons :
        (outcome : Option FetchOutcome)
        → fetch_one outside options round index batch_chunk planned s.counters ≡ outcome
        → BatchKeeps first to_block low step
    unfolding run_batch
    batch_cons none e = cc (rw (e, run_batch) at h)
    batch_cons (some (err error, counters)) e =
        subst (BatchKeeps first to_block low) (eq_of_some_eq (rw (e, run_batch) at h)) (
          IsGapFree-counters outside options first to_block s counters s.active_chunk_size g
            (fetched_counters round index batch_chunk planned s.counters _ e) g.sized)
    batch_cons (some (ok fetched, counters)) e = batch_fetched fetched counters e

  run_batch-BatchKeeps :
      (round index batch_chunk low : ℕ) (ranges : List BlockRange) (s : Ingestion) (step : Step)
      → IsGapFree first to_block s
      → low ≤ s.next_block
      → IsChained s.next_block to_block ranges
      → run_batch outside options round index batch_chunk ranges s ≡ some step
      → BatchKeeps first to_block low step
  unfolding run_batch
  run_batch-BatchKeeps round index batch_chunk low [] s step g above chained h =
      subst (BatchKeeps first to_block low) (eq_of_some_eq h) (g, above)
  run_batch-BatchKeeps round index batch_chunk low (planned ∷ rest) s step g above chained h =
      batch_cons round index batch_chunk low planned rest s step g (omega arith) chained h
        (λ s' g' a c e.
          run_batch-BatchKeeps round (suc index) batch_chunk low rest s' step g' a c e)
        (fetch_one outside options round index batch_chunk planned s.counters) refl

  -- A batch of at least one range moves the next block, unless it throws.
  pub run_batch_advances :
      (round batch_chunk : ℕ) (planned : BlockRange) (rest : List BlockRange) (s : Ingestion)
      (step : Step)
      → IsGapFree first to_block s
      → IsChained s.next_block to_block (planned ∷ rest)
      → run_batch outside options round 0 batch_chunk (planned ∷ rest) s ≡ some step
      → BatchKeeps first to_block (s.next_block + 1) step
  run_batch_advances round batch_chunk planned rest s step g chained h =
      batch_cons round 0 batch_chunk (s.next_block + 1) planned rest s step g (omega arith) chained
        h
        (λ s' g' a c e.
          run_batch-BatchKeeps round 1 batch_chunk (s.next_block + 1) rest s' step g' a c e)
        (fetch_one outside options round 0 batch_chunk planned s.counters) refl
