-- ===== src/Ingest/Run/Invariant.antt =====
-- The invariant of a run: the blocks behind the start are stored and recorded without a gap.
use parallel_usdp_hyperevm_i.Prelude.{
  eq_of_some_eq, ap, ℕ, ◌+◌, ◌≤◌, ◌<◌, ◌≡◌, refl, true, ◌||◌, Option, none, some, arith, Result, ok,
  err, inr, ◌⊎◌,
}
use parallel_usdp_hyperevm_i.Planner.Coverage.{contains, covered}
use parallel_usdp_hyperevm_i.Ingest.Types.{IngestionCounters}
use parallel_usdp_hyperevm_i.Ingest.Fetch.{Fetched}
use parallel_usdp_hyperevm_i.Ingest.Store.{Database, Checkpoint, PersistError}
use parallel_usdp_hyperevm_i.Ingest.Run.{
  Outside, IngestOptions, Ingestion, Step, proceed, throw, after_persist,
}

-- The checkpoint of the database names the block `next`.
abbrev pub PointsAt : ℕ → Option Checkpoint → Type 0
PointsAt next none = ⊥
PointsAt next (some checkpoint) = checkpoint.next_block ≡ next

-- From `first` on all blocks before the next one are covered, the checkpoint names the next block
-- as soon as one was stored, and the counter of covered blocks is exact.
pub record IsGapFree (first to_block : ℕ) (s : Ingestion) : Type 0 where
  pub begun : first ≤ s.next_block
  pub within : s.next_block ≤ to_block + 1
  pub counted : s.counters.blocks_covered + first ≡ s.next_block
  pub sized : 0 < s.active_chunk_size
  pub checkpointed : (s.next_block ≡ first) ⊎ PointsAt s.next_block s.database.checkpoint
  pub gap_free : (b : ℕ) → first ≤ b → b < s.next_block → covered b s.database.coverage ≡ true

-- What a step has kept: it goes on at the block `next`, or throws with the invariant intact.
abbrev pub Keeps : ℕ → ℕ → ℕ → Step → Type 0
Keeps first to_block next (proceed s) = IsGapFree first to_block s × (s.next_block ≡ next)
Keeps first to_block next (throw error s) = IsGapFree first to_block s

module _ (outside : Outside) (options : IngestOptions) (first to_block : ℕ) where
  -- Other counters and another chunk size do not matter.
  pub IsGapFree-counters :
      (s : Ingestion) (counters : IngestionCounters) (size : ℕ)
      → IsGapFree first to_block s
      → counters.blocks_covered ≡ s.counters.blocks_covered
      → 0 < size
      → IsGapFree first to_block (record s { counters = counters; active_chunk_size = size })
  IsGapFree-counters s counters size g e h = record {
    begun = g.begun;
    within = g.within;
    counted = rw e g.counted;
    sized = h;
    checkpointed = g.checkpointed;
    gap_free = g.gap_free;
  }

  pub after_persist-Keeps :
      (s : Ingestion) (fetched : Fetched)
      (outcome : Result PersistError Database × IngestionCounters)
      → IsGapFree first to_block s
      → fetched.range.from_block ≡ s.next_block
      → fetched.range.from_block ≤ fetched.range.to_block
      → fetched.range.to_block ≤ to_block
      → outcome.1.blocks_covered ≡ s.counters.blocks_covered
      → ((stored : Database)
          → outcome.0 ≡ ok stored
          → PointsAt (fetched.range.to_block + 1) stored.checkpoint
            × ((b : ℕ)
                → covered b stored.coverage
                  ≡ (contains b fetched.range || covered b s.database.coverage)))
      → Keeps first to_block
          (fetched.range.to_block + 1)
          (after_persist outside options s fetched outcome)
  after_persist-Keeps s fetched (err error, counters) g from ordered inside same stored =
      IsGapFree-counters s counters s.active_chunk_size g same g.sized
  after_persist-Keeps s fetched (ok database, counters) g from ordered inside same stored =
      let (points, blocks) = stored database refl in
      (
        record {
          begun = omega (arith, g.begun);
          within = omega arith;
          counted = omega (arith, g.counted);
          sized = g.sized;
          checkpointed = inr points;
          gap_free = λ b low high. ground (arith, blocks b, g.gap_free b);
        },
        refl,
      )

  pub PointsAt-of_some :
      (stored : Option Checkpoint) (checkpoint : Checkpoint)
      → stored ≡ some checkpoint
      → PointsAt checkpoint.next_block stored
  PointsAt-of_some none checkpoint h = cc
  PointsAt-of_some (some other) checkpoint h =
      ap (λ (c : Checkpoint). c.next_block) (eq_of_some_eq h)
