-- ===== src/Ingest/Run/Completion.antt =====
-- What a whole run leaves behind, however it ends.
use parallel_usdp_hyperevm_i.Prelude.{
  ℕ, zero, suc, ◌+◌, ◌-◌, ◌≤◌, ◌<◌, ◌≡◌, ◌≢◌, refl, Bool, true, false, List, [], ◌∷◌, Option, none,
  some, arith, leb, ltb, larger, if◌then◌else◌, Result, ok, err, inl, inr, Result-cases,
  Option-cases, Bool-cases, subst, ok-injective, eq_of_some_eq, leb→le, ◌>>=◌,
}
use parallel_usdp_hyperevm_i.Planner.{BlockRange, PlanError, plan_block_range}
use parallel_usdp_hyperevm_i.Ingest.Types.{StoredBlock}
use parallel_usdp_hyperevm_i.Ingest.Store.{Database, Checkpoint}
use parallel_usdp_hyperevm_i.Prelude.Text.{Text}
use parallel_usdp_hyperevm_i.Ingest.Run.{
  IngestError, beyond_finalized_head, bad_order, check_checkpoint, or_refuse, Outside,
  IngestOptions, Ingestion, Step, plan_ranges, run_batch, run_round, Progress, refused, noop,
  completed, interrupted, failed, ingest_loop, first_block, start, ingest_logs,
}
use parallel_usdp_hyperevm_i.Ingest.Run.Invariant.{IsGapFree}
use parallel_usdp_hyperevm_i.Ingest.Run.Batches.{
  IsChained, plan_ranges-IsChained, BatchKeeps, run_batch_advances, Step-cases,
}

-- What every way to end guarantees about the blocks from `first` on.
abbrev pub Leaves : ℕ → ℕ → Progress → Type 0
Leaves first to_block (refused error) = Unit
Leaves first to_block (noop next) = Unit
Leaves first to_block (completed s) = IsGapFree first to_block s × (s.next_block ≡ to_block + 1)
Leaves first to_block (interrupted s) = IsGapFree first to_block s
Leaves first to_block (failed error s) = IsGapFree first to_block s

cons-ne-nil : (range : BlockRange) (rest : List BlockRange) → range ∷ rest ≢ []
cons-ne-nil range rest e = cc

ranges_first :
    (range : BlockRange) (rest : Result PlanError (List BlockRange)) (ranges : List BlockRange)
    → (rest >>= λ others. ok (range ∷ others)) ≡ ok ranges
    → ranges ≢ []
ranges_first range (err error) ranges h = cc
ranges_first range (ok others) ranges h =
    subst (λ (l : List BlockRange). l ≢ []) {x = range ∷ others} (ok-injective h)
      (cons-ne-nil range others)

bind_first :
    (first : Result PlanError BlockRange) (rest : BlockRange → Result PlanError (List BlockRange))
    (ranges : List BlockRange)
    → (first >>= λ range. rest range >>= λ others. ok (range ∷ others)) ≡ ok ranges
    → ranges ≢ []
bind_first (err error) rest ranges h = cc
bind_first (ok range) rest ranges h = ranges_first range (rest range) ranges h

plan_ranges_first :
    (count from_block to_block chunk_size : ℕ) (ranges : List BlockRange)
    → 0 < count
    → from_block ≤ to_block
    → plan_ranges count from_block to_block chunk_size ≡ ok ranges
    → ranges ≢ []
unfolding plan_ranges
plan_ranges_first zero from_block to_block chunk_size ranges h k e = elim h [ ]
plan_ranges_first (suc count) from_block to_block chunk_size ranges h k e =
    elim (Bool-cases (ltb to_block from_block)) [
      | inl past ↦ ground arith
      | inr left ↦
          bind_first (plan_block_range from_block to_block chunk_size)
            (λ range. plan_ranges count (range.to_block + 1) to_block chunk_size) ranges
            (rw (left, plan_ranges) at e)
    ]

module _ (outside : Outside) (options : IngestOptions) (first : ℕ) where
  open options use {to_block}

  round_of_ranges :
      (round : ℕ) (ranges : List BlockRange) (s : Ingestion) (step : Step)
      → IsGapFree first to_block s
      → ranges ≢ []
      → IsChained s.next_block to_block ranges
      → run_batch outside options round 0 s.active_chunk_size ranges s ≡ some step
      → BatchKeeps first to_block (s.next_block + 1) step
  round_of_ranges round [] s step g nonempty chained h = absurd (nonempty refl)
  round_of_ranges round (planned ∷ rest) s step g nonempty chained h =
      run_batch_advances outside options first round s.active_chunk_size planned rest s step g
        chained h

  pub run_round-BatchKeeps :
      (round : ℕ) (s : Ingestion) (step : Step)
      → IsGapFree first to_block s
      → s.next_block ≤ to_block
      → run_round outside options round s ≡ some step
      → BatchKeeps first to_block (s.next_block + 1) step
  unfolding run_round
  run_round-BatchKeeps round s step g below h =
      let count = larger 1 options.fetch_concurrency in
      elim (Result-cases (plan_ranges count s.next_block to_block s.active_chunk_size)) [
        | inr (error, bad) ↦
            subst (BatchKeeps first to_block (s.next_block + 1))
              (eq_of_some_eq (rw (bad, run_round) at h)) g
        | inl (ranges, planned) ↦
            round_of_ranges round ranges s step g
              (plan_ranges_first count s.next_block to_block s.active_chunk_size ranges
                (ground arith) below planned)
              (plan_ranges-IsChained count s.next_block to_block s.active_chunk_size ranges planned)
              (rw (planned, run_round) at h)
      ]

  Leaves-caught :
      (b : Bool) (s : Ingestion) (error : _)
      → IsGapFree first to_block s
      → Leaves first to_block (if b then interrupted s else failed error s)
  Leaves-caught true s error g = g
  Leaves-caught false s error g = g

  ingest_loop-Leaves :
      (fuel round : ℕ) (s : Ingestion) (progress : Progress)
      → IsGapFree first to_block s
      → ingest_loop outside options fuel round s ≡ some progress
      → Leaves first to_block progress
  unfolding ingest_loop
  ingest_loop-Leaves zero round s progress g h = cc
  ingest_loop-Leaves (suc fuel) round s progress g h =
      elim (Bool-cases (leb s.next_block to_block)) [
        | inr reached ↦
            subst (Leaves first to_block) (eq_of_some_eq (rw (reached, ingest_loop) at h))
              (g, ground (arith, g.within))
        | inl below ↦ elim (Bool-cases (outside.aborted round)) [
          | inl stopped ↦
              subst (Leaves first to_block) (eq_of_some_eq (rw (below, stopped, ingest_loop) at h))
                g
          | inr going ↦ elim (Option-cases (run_round outside options round s)) [
            | inl no_fuel ↦ cc (rw (below, going, no_fuel, ingest_loop) at h)
            | inr (step, ran) ↦
                let kept = run_round-BatchKeeps round s step g (leb→le _ _ below) ran in
                elim (Step-cases step) [
                  | inr (error, s', thrown) ↦
                      subst (Leaves first to_block)
                        (eq_of_some_eq (rw (below, going, ran, thrown, ingest_loop) at h))
                        (Leaves-caught (outside.aborted_in_catch round) s' error
                          (rw thrown at kept))
                  | inl (s', on) ↦
                      ingest_loop-Leaves fuel (suc round) s' progress (rw on at kept).0
                        (rw (below, going, ran, on, ingest_loop) at h)
                ]
          ]
        ]
      ]

first_block-le :
    (outside : Outside) (options : IngestOptions) (stored : Option Checkpoint)
    → options.from_block ≤ first_block outside options stored
first_block-le outside options none = omega arith
first_block-le outside options (some stored) = ground arith

pub start-IsGapFree :
    (outside : Outside) (options : IngestOptions) (database : Database)
    → 0 < options.chunk_size
    → first_block outside options database.checkpoint ≤ options.to_block
    → IsGapFree
        (first_block outside options database.checkpoint)
        options.to_block
        (start outside options database)
start-IsGapFree outside options database h k = record {
  begun = omega arith;
  within = omega arith;
  counted = omega arith;
  sized = h;
  checkpointed = inl refl;
  gap_free = λ b low high. absurd (omega arith);
}

module _ (outside : Outside) (options : IngestOptions) (block_at : ℕ → Result Text StoredBlock)
    (finalized_head : ℕ) (database : Database) where
  abbrev first : ℕ
  first = first_block outside options database.checkpoint

  Leaves-checked :
      (checked : Result IngestError (Unit {0})) (rest : Option Progress) (progress : Progress)
      → ((p : Progress) → rest ≡ some p → Leaves first options.to_block p)
      → or_refuse outside options checked rest ≡ some progress
      → Leaves first options.to_block progress
  Leaves-checked (err error) rest progress keeps h =
      subst (Leaves first options.to_block) {x = refused error} (eq_of_some_eq h) tt
  Leaves-checked (ok done) rest progress keeps h = keeps progress h

  Leaves-begun :
      0 < options.chunk_size
      → (progress : Progress)
      → (if ltb options.to_block first
          then some (noop first)
          else ingest_loop outside options
              (options.to_block + 2 - first)
              0
              (start outside options database))
        ≡ some progress
      → Leaves first options.to_block progress
  Leaves-begun sized progress h = elim (Bool-cases (ltb options.to_block first)) [
    | inl past ↦
        subst (Leaves first options.to_block) {x = noop first} (eq_of_some_eq (rw past at h)) tt
    | inr below ↦
        ingest_loop-Leaves outside options first (options.to_block + 2 - first) 0
          (start outside options database) progress
          (start-IsGapFree outside options database sized (ground arith)) (rw below at h)
  ]

  -- However a run of `ingestLogs` with a positive chunk size ends, completed, interrupted or
  -- failed, the blocks from its first one up to the next block are covered without a gap, the
  -- checkpoint names the next block once a chunk was stored, and the counter of covered blocks is
  -- exact; a completed run has come behind the requested end.
  pub ingest_logs-Leaves :
      (progress : Progress)
      → 0 < options.chunk_size
      → ingest_logs outside options block_at finalized_head database ≡ some progress
      → Leaves first options.to_block progress
  unfolding ingest_logs
  ingest_logs-Leaves progress sized h = elim (Bool-cases (ltb finalized_head options.to_block)) [
    | inl beyond ↦
        subst (Leaves first options.to_block) {x = refused beyond_finalized_head}
          (eq_of_some_eq (rw beyond at h)) tt
    | inr final ↦ elim (Bool-cases (ltb options.to_block options.from_block)) [
      | inl bad ↦
          subst (Leaves first options.to_block) {x = refused bad_order}
            (eq_of_some_eq (rw (final, bad) at h)) tt
      | inr good ↦
          Leaves-checked (check_checkpoint outside options block_at database.checkpoint) _ progress
            (Leaves-begun sized) (rw (final, good) at h)
    ]
  ]
