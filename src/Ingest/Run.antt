-- ===== src/Ingest/Run.antt =====
-- src/indexer/service.ts: `ingestLogs`. What the provider, the abort signal and the database answer
-- is known by the round of the outer loop and the place in its batch.
pub mod Invariant
pub mod Batches
pub mod Completion
pub mod Total
use parallel_usdp_hyperevm_i.Prelude.{
  ℕ, zero, suc, ◌+◌, ◌-◌, ◌%◌, Bool, true, false, ◌&&◌, ◌||◌, List, [], ◌∷◌, Option, none, some,
  leb, ltb, ◌==◌, if◌then◌else◌, length, larger, Result, ok, err, ◌>>=◌,
}
use parallel_usdp_hyperevm_i.Prelude.Text.{Text, to_lower_case, text_eq}
use parallel_usdp_hyperevm_i.Planner.{BlockRange, PlanError, plan_block_range}
use parallel_usdp_hyperevm_i.Decoder.{Abi, Decoders}
use parallel_usdp_hyperevm_i.Decoder.Payload.{JsValue}
use parallel_usdp_hyperevm_i.Ingest.Types.{IngestionCounters, blank_counters, Log, StoredBlock}
use parallel_usdp_hyperevm_i.Ingest.Fetch.{
  FetchError, Fetched, FetchOutcome, fetch_loop, fetch_fuel,
}
use parallel_usdp_hyperevm_i.Ingest.Store.{Database, Checkpoint, PersistError}
use parallel_usdp_hyperevm_i.Ingest.Store.Chunk.{persist_chunk}

-- What answers from outside: the provider (logs, the blocks of logs, one block by its number), the
-- abort signal, and a fault of the database while a chunk is stored.
pub record Outside : Type 0 where
  pub get_logs : (round index call : ℕ) → BlockRange → Result Text (List Log)
  pub get_blocks : (round index : ℕ) → List Log → Result Text (List StoredBlock)
  pub get_block : (round index : ℕ) → ℕ → Result Text StoredBlock
  pub aborted_fetch : (round index call : ℕ) → Bool
  pub aborted : (round : ℕ) → Bool
  pub aborted_in_catch : (round : ℕ) → Bool
  pub fault : (round index : ℕ) → Option Text
  pub decode_event_log : Abi → Text → List Text → Option (Text × JsValue)

pub record IngestOptions : Type 0 where
  pub chain_id : ℕ
  pub decoders : Decoders
  pub known_topics : List Text
  pub run_id : ℕ
  pub from_block : ℕ
  pub to_block : ℕ
  pub chunk_size : ℕ
  pub max_retries : ℕ
  pub retry_rate_limits_indefinitely : Bool
  pub anchor_every_chunks : ℕ
  pub fetch_concurrency : ℕ

pub data IngestError : Type 0 where
  beyond_finalized_head bad_order checkpoint_drift : IngestError
  unplanned : PlanError → IngestError
  unfetched : FetchError → IngestError
  unstored : PersistError → IngestError
  rpc_error : Text → IngestError

-- The variables of the loop.
pub record Ingestion : Type 0 where
  pub database : Database
  pub counters : IngestionCounters
  pub next_block : ℕ
  pub active_chunk_size : ℕ

-- The inner `while`: at most `count` chunks from `from_block` on.
unfoldable pub plan_ranges : ℕ → ℕ → ℕ → ℕ → Result PlanError (List BlockRange)
plan_ranges zero from_block to_block chunk_size = ok []
plan_ranges (suc count) from_block to_block chunk_size = elim (ltb to_block from_block) [
  | true ↦ ok []
  | false ↦ plan_block_range from_block to_block chunk_size >>= λ range.
      plan_ranges count (range.to_block + 1) to_block chunk_size >>= λ rest. ok (range ∷ rest)
]

-- `Error` carries the variables as they were when it was thrown.
pub data Step : Type 0 where
  proceed : Ingestion → Step
  throw : IngestError → Ingestion → Step

-- `refused` is thrown before a run is recorded, and `failed` once it is recorded as failed.
pub data Progress : Type 0 where
  refused : IngestError → Progress
  noop : ℕ → Progress
  completed interrupted : Ingestion → Progress
  failed : IngestError → Ingestion → Progress

module _ (outside : Outside) (options : IngestOptions) where
  open outside use {
    get_logs, get_blocks, get_block, aborted_fetch, aborted, aborted_in_catch, fault,
    decode_event_log,
  }
  open options use {
    chain_id, decoders, known_topics, run_id, from_block, to_block, chunk_size, max_retries,
    retry_rate_limits_indefinitely, anchor_every_chunks, fetch_concurrency,
  }

  abbrev should_anchor : IngestionCounters → BlockRange → Bool
  should_anchor counters range =
      range.to_block == to_block || (counters.chunks + 1) % anchor_every_chunks == 0

  abbrev pub some_ok : Result Text StoredBlock → Result Text (Option StoredBlock)
  some_ok answer = answer >>= λ block. ok (some block)

  unfoldable pub get_anchor :
      ℕ → ℕ → IngestionCounters → BlockRange → Result Text (Option StoredBlock)
  get_anchor round index counters range =
      if should_anchor counters range
      then some_ok (get_block round index range.to_block)
      else ok none

  abbrev pub count_range : IngestionCounters → BlockRange → IngestionCounters
  count_range counters range = record counters {
    chunks = counters.chunks + 1;
    blocks_covered = counters.blocks_covered + range.to_block - range.from_block + 1;
  }

  -- The body behind `counters.logsFetched += …`, by what `persistChunk` did.
  abbrev pub after_persist :
      Ingestion → Fetched → Result PersistError Database × IngestionCounters → Step
  after_persist s fetched (err error, counters) =
      throw (unstored error) (record s { counters = counters })
  after_persist s fetched (ok database, counters) = proceed (record s {
    database = database;
    counters = count_range counters fetched.range;
    next_block = fetched.range.to_block + 1;
  })

  abbrev pub count_logs : IngestionCounters → List Log → IngestionCounters
  count_logs counters logs = record counters { logs_fetched = counters.logs_fetched + length logs }

  -- The body of the `for` loop once the logs are there.
  unfoldable pub store_fetched : ℕ → ℕ → Ingestion → Fetched → Step
  unfolding get_anchor persist_chunk
  store_fetched round index s fetched = elim (get_blocks round index fetched.logs) [
    | err message ↦ throw (rpc_error message) s
    | ok blocks ↦ elim (get_anchor round index s.counters fetched.range) [
      | err message ↦ throw (rpc_error message) s
      | ok anchor ↦ after_persist s fetched (
          persist_chunk decode_event_log decoders known_topics chain_id s.database run_id
            fetched.range fetched.logs blocks anchor (fault round index)
            (count_logs s.counters fetched.logs))
    ]
  ]

  -- One request of the batch, with the chunk size that was active when the batch began. The
  -- requests run side by side; their retries are counted here as each is awaited.
  abbrev pub fetch_one : ℕ → ℕ → ℕ → BlockRange → IngestionCounters → Option FetchOutcome
  fetch_one round index batch_chunk planned counters =
      fetch_loop (get_logs round index) (aborted_fetch round index) planned.from_block
        planned.to_block max_retries retry_rate_limits_indefinitely
        (fetch_fuel batch_chunk max_retries) 0 batch_chunk 0 counters

  abbrev pub with_fetched : Ingestion → Fetched → IngestionCounters → Ingestion
  with_fetched s fetched counters = record s {
    counters = counters;
    active_chunk_size = fetched.chunk_size;
  }

  -- The `for` loop over a batch; `none` means that a request ran out of fuel. A chunk that was
  -- shrunk ends the batch.
  unfoldable pub run_batch : ℕ → ℕ → ℕ → List BlockRange → Ingestion → Option Step
  unfolding store_fetched
  run_batch round index batch_chunk [] s = some (proceed s)
  run_batch round index batch_chunk (planned ∷ rest) s =
      elim (fetch_one round index batch_chunk planned s.counters) [
        | none ↦ none
        | some (err error, counters) ↦
            some (throw (unfetched error) (record s { counters = counters }))
        | some (ok fetched, counters) ↦
            elim (store_fetched round index (with_fetched s fetched counters) fetched) [
              | throw error s' ↦ some (throw error s')
              | proceed s' ↦ elim (fetched.range.to_block == planned.to_block) [
                | true ↦ run_batch round (suc index) batch_chunk rest s'
                | false ↦ some (proceed s')
              ]
            ]
      ]

  -- The body of the outer loop, between the test of the signal and the next round.
  unfoldable pub run_round : ℕ → Ingestion → Option Step
  unfolding plan_ranges run_batch
  run_round round s =
      elim (plan_ranges (larger 1 fetch_concurrency) s.next_block to_block s.active_chunk_size) [
        | err error ↦ some (throw (unplanned error) s)
        | ok ranges ↦ run_batch round 0 s.active_chunk_size ranges s
      ]

  -- The outer `while` and the `catch` behind it; `none` means that the fuel ran out.
  unfoldable pub ingest_loop : ℕ → ℕ → Ingestion → Option Progress
  unfolding run_round
  ingest_loop zero round s = none
  ingest_loop (suc fuel) round s = elim (leb s.next_block to_block) [
    | false ↦ some (completed s)
    | true ↦ elim (aborted round) [
      | true ↦ some (interrupted s)
      | false ↦ elim (run_round round s) [
        | none ↦ none
        | some (throw error s') ↦
            some (if aborted_in_catch round then interrupted s' else failed error s')
        | some (proceed s') ↦ ingest_loop fuel (suc round) s'
      ]
    ]
  ]

  -- Whether the block of the stored checkpoint still has the stored hash.
  abbrev same_hash : Text → Result Text StoredBlock → Result IngestError (Unit {0})
  same_hash hash (err message) = err (rpc_error message)
  same_hash hash (ok block) =
      if text_eq (to_lower_case block.hash) (to_lower_case hash)
      then ok tt
      else err checkpoint_drift

  abbrev check_anchor :
      (ℕ → Result Text StoredBlock) → Option ℕ → Option Text → Result IngestError (Unit {0})
  check_anchor block_at none hash = ok tt
  check_anchor block_at (some number) none = ok tt
  check_anchor block_at (some number) (some []) = ok tt
  check_anchor block_at (some number) (some (c ∷ cs)) = same_hash (c ∷ cs) (block_at number)

  unfoldable pub check_checkpoint :
      (ℕ → Result Text StoredBlock) → Option Checkpoint → Result IngestError (Unit {0})
  check_checkpoint block_at none = ok tt
  check_checkpoint block_at (some stored) =
      check_anchor block_at stored.last_completed_block stored.last_completed_block_hash

  abbrev pub first_block : Option Checkpoint → ℕ
  first_block none = from_block
  first_block (some stored) =
      if ltb from_block stored.next_block then stored.next_block else from_block

  abbrev pub start : Database → Ingestion
  start database = record {
    database = database;
    counters = blank_counters;
    next_block = first_block database.checkpoint;
    active_chunk_size = chunk_size;
  }

  abbrev pub or_refuse : Result IngestError (Unit {0}) → Option Progress → Option Progress
  or_refuse (err error) rest = some (refused error)
  or_refuse (ok _) rest = rest

  -- `block_at` reads the blocks of the provider before the run begins.
  unfoldable pub ingest_logs : (ℕ → Result Text StoredBlock) → ℕ → Database → Option Progress
  unfolding ingest_loop check_checkpoint
  ingest_logs block_at finalized_head database =
      if ltb finalized_head to_block
      then some (refused beyond_finalized_head)
      else if ltb to_block from_block
      then some (refused bad_order)
      else or_refuse (check_checkpoint block_at database.checkpoint) (
          if ltb to_block (first_block database.checkpoint)
          then some (noop (first_block database.checkpoint))
          else ingest_loop (to_block + 2 - first_block database.checkpoint) 0 (start database))
