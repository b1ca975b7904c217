-- ===== src/Ingest/Store/Chunk.antt =====
-- src/indexer/service.ts: the decoding loop and the rest of `persistChunk`.
use parallel_usdp_hyperevm_i.Prelude.{
  ℕ, ◌+◌, ◌-◌, Bool, ◌&&◌, List, [], ◌∷◌, ◌++◌, Option, none, some, ◌==◌, if◌then◌else◌, length,
  any, Result, ok, err,
}
use parallel_usdp_hyperevm_i.Prelude.Text.{Text, to_lower_case}
use parallel_usdp_hyperevm_i.Planner.{BlockRange}
use parallel_usdp_hyperevm_i.Decoder.{
  Abi, Decoders, DecodedProtocolEvent, decode_protocol_log, is_known_protocol_event_topic,
  first_topic,
}
use parallel_usdp_hyperevm_i.Decoder.Payload.{JsValue}
use parallel_usdp_hyperevm_i.Ingest.Types.{IngestionCounters, Log, StoredBlock}
use parallel_usdp_hyperevm_i.Ingest.Store.{
  RawLog, RawLogRow, ProtocolEventRow, Checkpoint, Database, PersistError, statement_failed,
  insert_blocks, incoming_logs, insert_raw_logs, inserted_id,
}

-- `on conflict (raw_log_id) do nothing`
unfoldable pub add_event : ProtocolEventRow → List ProtocolEventRow → List ProtocolEventRow
add_event event table =
    if any (λ row. row.raw_log_id == event.raw_log_id) table then table else table ++ event ∷ []

unfoldable pub add_events : List ProtocolEventRow → List ProtocolEventRow → List ProtocolEventRow
unfolding add_event
add_events [] table = table
add_events (event ∷ rest) table = add_events rest (add_event event table)

abbrev pub same_range : BlockRange → BlockRange → Bool
same_range a b = a.from_block == b.from_block && a.to_block == b.to_block

-- `on conflict (chain_id, scope, from_block, to_block) do nothing`
unfoldable pub add_coverage : BlockRange → List BlockRange → List BlockRange
add_coverage range table =
    if any (λ row. same_range row range) table then table else table ++ range ∷ []

abbrev pub coalesce {ℓ} : {A : Type ℓ} → Option A → Option A → Option A
coalesce none old = old
coalesce (some new) old = some new

abbrev pub anchor_number : Option StoredBlock → Option ℕ
anchor_number none = none
anchor_number (some block) = some block.number

abbrev pub anchor_hash : Option StoredBlock → Option Text
anchor_hash none = none
anchor_hash (some block) = some (to_lower_case block.hash)

abbrev pub old_block : Option Checkpoint → Option ℕ
old_block none = none
old_block (some checkpoint) = checkpoint.last_completed_block

abbrev pub old_hash : Option Checkpoint → Option Text
old_hash none = none
old_hash (some checkpoint) = checkpoint.last_completed_block_hash

-- The upsert of `indexer_checkpoints`.
unfoldable pub move_checkpoint : BlockRange → Option StoredBlock → Option Checkpoint → Checkpoint
move_checkpoint range anchor old = record {
  next_block = range.to_block + 1;
  last_completed_block = coalesce (anchor_number anchor) (old_block old);
  last_completed_block_hash = coalesce (anchor_hash anchor) (old_hash old);
}

abbrev pub with_anchor : List StoredBlock → Option StoredBlock → List StoredBlock
with_anchor blocks none = blocks
with_anchor blocks (some anchor) = blocks ++ anchor ∷ []

-- The loop over the logs yields the events to insert and the number of decode failures.
pub record DecodedLogs : Type 0 where
  pub events : List ProtocolEventRow
  pub failures : ℕ

module _ (decode_event_log : Abi → Text → List Text → Option (Text × JsValue)) (decoders : Decoders)
    (known_topics : List Text) (chain_id : ℕ) where
  abbrev pub event_row : ℕ → RawLog → DecodedProtocolEvent → ProtocolEventRow
  event_row id raw_log event = record {
    raw_log_id = id;
    block_number = raw_log.block_number;
    transaction_hash = raw_log.transaction_hash;
    log_index = raw_log.log_index;
    event = event;
  }

  abbrev pub decode_one :
      Option ℕ → RawLog → Option DecodedProtocolEvent → DecodedLogs → DecodedLogs
  decode_one none raw_log decoded rest = rest
  decode_one (some id) raw_log none rest =
      if is_known_protocol_event_topic known_topics (first_topic raw_log.topics)
      then record rest { failures = rest.failures + 1 }
      else rest
  decode_one (some id) raw_log (some event) rest = record rest {
    events = event_row id raw_log event ∷ rest.events;
  }

  -- The loop reads each log once more; the row that it became has the same address, data and
  -- topics, its address in lower case, which the decoder lowers in any case.
  unfoldable pub decode_logs : List RawLogRow → List RawLog → DecodedLogs
  unfolding inserted_id decode_protocol_log is_known_protocol_event_topic
  decode_logs inserted [] = record { events = []; failures = 0 }
  decode_logs inserted (raw_log ∷ rest) =
      decode_one (inserted_id raw_log inserted) raw_log
        (decode_protocol_log decode_event_log decoders chain_id raw_log.contract_address
          raw_log.log_data raw_log.topics)
        (decode_logs inserted rest)

  abbrev pub count_chunk :
      IngestionCounters → List Log → List RawLogRow → DecodedLogs → IngestionCounters
  count_chunk counters logs inserted decoded = record counters {
    raw_logs_inserted = counters.raw_logs_inserted + length inserted;
    duplicate_raw_logs = counters.duplicate_raw_logs + (length logs - length inserted);
    events_decoded = counters.events_decoded + length decoded.events;
    decode_failures = counters.decode_failures + decoded.failures;
  }

  abbrev pub PersistOutcome : Type 0
  PersistOutcome = Result PersistError Database × IngestionCounters

  -- What the transaction commits, or the error after which it is rolled back.
  abbrev pub finish : Option Text → Database → Result PersistError Database
  finish none database = ok database
  finish (some message) database = err (statement_failed message)

  abbrev pub store_logs :
      Database
      → List StoredBlock
      → ℕ
      → BlockRange
      → List Log
      → List RawLog
      → Option StoredBlock
      → Option Text
      → IngestionCounters
      → PersistOutcome
  store_logs database blocks run_id range logs incoming anchor fault counters =
      let inserted = insert_raw_logs run_id incoming database.raw_logs database.next_log_id in
      let decoded = decode_logs inserted.rows incoming in
      (
        finish fault (record {
          blocks = blocks;
          raw_logs = inserted.raw_logs;
          next_log_id = inserted.next_log_id;
          protocol_events = add_events decoded.events database.protocol_events;
          coverage = add_coverage range database.coverage;
          checkpoint = some (move_checkpoint range anchor database.checkpoint);
        }),
        count_chunk counters logs inserted.rows decoded,
      )

  -- The counters are not part of the transaction: they keep what was counted before a fault. The
  -- fault is one of the statements after the counts: of the coverage, the checkpoint or the commit.
  unfoldable pub persist_chunk :
      Database
      → ℕ
      → BlockRange
      → List Log
      → List StoredBlock
      → Option StoredBlock
      → Option Text
      → IngestionCounters
      → PersistOutcome
  unfolding insert_blocks incoming_logs insert_raw_logs decode_logs add_events add_coverage
      move_checkpoint
  persist_chunk database run_id range logs blocks anchor fault counters =
      elim (insert_blocks database.blocks (with_anchor blocks anchor)) [
        | err error ↦ (err error, counters)
        | ok stored ↦ elim (incoming_logs decoders chain_id logs) [
          | err error ↦ (err error, counters)
          | ok incoming ↦
              store_logs database stored run_id range logs incoming anchor fault counters
        ]
      ]

  -- The rows that the next statement sees: those of the transaction, or, after a rollback, the old.
  unfoldable pub database_after : Database → PersistOutcome → Database
  database_after database (ok stored, counters) = stored
  database_after database (err error, counters) = database
