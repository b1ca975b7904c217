-- ===== src/Tests/Ingesting.antt =====
-- One ingestion run of 16 blocks in chunks of 10, with a duplicate log.
use parallel_usdp_hyperevm_i.Prelude.{
  ◌++◌, true, ℕ, zero, suc, ◌≡◌, refl, false, List, [], ◌∷◌, Option, none, some, arith, ok, err,
  Result, ◌||◌, ◌+◌, length,
}
use parallel_usdp_hyperevm_i.Prelude.Text.{Text, codes, to_lower_case}
use parallel_usdp_hyperevm_i.Planner.{BlockRange}
use parallel_usdp_hyperevm_i.Decoder.{
  Abi, Decoders, build_decoders, DecodedProtocolEvent, decode_protocol_log,
}
use parallel_usdp_hyperevm_i.Decoder.Payload.{JsValue, big, decimal, is_json}
use parallel_usdp_hyperevm_i.Prelude.Int.{pos}
use parallel_usdp_hyperevm_i.Ingest.Types.{IngestionCounters, blank_counters, Log, StoredBlock}
use parallel_usdp_hyperevm_i.Decoder.Addresses.{decode_protocol_log-is_json}
use parallel_usdp_hyperevm_i.Planner.Coverage.{contains, covered}
use parallel_usdp_hyperevm_i.Ingest.Store.Refines.{IsKeyed, lookup, put_all, lookup-insert_raw_logs}
use parallel_usdp_hyperevm_i.Ingest.Store.{insert_raw_logs, RawLog, Database}
use parallel_usdp_hyperevm_i.Ingest.Store.Atomic.{persist_chunk_effect}
use parallel_usdp_hyperevm_i.Ingest.Store.Chunk.{move_checkpoint, persist_chunk}
use parallel_usdp_hyperevm_i.Ingest.Run.{Outside, IngestOptions, Progress, first_block, ingest_logs}
use parallel_usdp_hyperevm_i.Ingest.Run.Completion.{Leaves, ingest_logs-Leaves}
use parallel_usdp_hyperevm_i.Ingest.Run.Total.{ingest_logs-total}

abbrev address : Text
address = codes "0xAB"

abbrev decoders : Decoders
decoders =
    build_decoders (record { chain_id = 999; usdp = codes "0xcd"; susdp = address } ∷ []) 999
      (codes "0xef")

abbrev decode_event_log : Abi → Text → List Text → Option (Text × JsValue)
decode_event_log abi log_data topics = some (codes "Accrued", big (pos 3))

abbrev log : Log
log = record {
  address = address;
  topics = codes "0x1" ∷ [];
  log_data = codes "0x";
  removed = false;
  block_number = some 12;
  block_hash = some (codes "0xH");
  transaction_hash = some (codes "0xT");
  transaction_index = some 0;
  log_index = some 4;
}

abbrev block : ℕ → StoredBlock
block n = record { number = n; hash = codes "0xH"; parent_hash = codes "0xP"; timestamp = 100 }

abbrev empty : Database
empty = record {
  blocks = [];
  raw_logs = [];
  next_log_id = 1;
  protocol_events = [];
  coverage = [];
  checkpoint = none;
}

-- Every request answers with the same log, the second request after one failure.
abbrev get_logs : ℕ → ℕ → ℕ → BlockRange → Result Text (List Log)
get_logs round zero call range = ok (log ∷ [])
get_logs round (suc index) zero range = err (codes "timeout")
get_logs round (suc index) (suc call) range = ok (log ∷ [])

abbrev outside : Outside
outside = record {
  get_logs = get_logs;
  get_blocks = λ round index logs. ok (block 12 ∷ []);
  get_block = λ round index n. ok (block n);
  aborted_fetch = λ round index call. false;
  aborted = λ round. false;
  aborted_in_catch = λ round. false;
  fault = λ round index. none;
  decode_event_log = decode_event_log;
}

abbrev options : IngestOptions
options = record {
  chain_id = 999;
  decoders = decoders;
  known_topics = [];
  run_id = 1;
  from_block = 10;
  to_block = 25;
  chunk_size = 10;
  max_retries = 5;
  retry_rate_limits_indefinitely = false;
  anchor_every_chunks = 1000;
  fetch_concurrency = 50;
}

abbrev block_at : ℕ → Result Text StoredBlock
block_at n = ok (block n)

ingest_logs-total_example :
    (progress : Progress) × (ingest_logs outside options block_at 30 empty ≡ some progress)
ingest_logs-total_example = ingest_logs-total outside options refl block_at 30 empty (omega arith)

abbrev ended : Progress
ended = (ingest_logs-total outside options refl block_at 30 empty (omega arith)).0

ingest_logs-Leaves_example : Leaves (first_block outside options none) 25 ended
ingest_logs-Leaves_example =
    ingest_logs-Leaves outside options block_at 30 empty ended (omega arith)
      (ingest_logs-total outside options refl block_at 30 empty (omega arith)).1

abbrev first_range : BlockRange
first_range = record { from_block = 10; to_block = 19 }

abbrev raw_log : RawLog
raw_log = record {
  block_number = 12;
  block_hash = codes "0xh";
  transaction_hash = codes "0xt";
  transaction_index = 0;
  log_index = 4;
  contract_address = codes "0xab";
  topics = codes "0x1" ∷ [];
  log_data = codes "0x";
  removed = false;
  decoder_version = "susdp-savings-v1";
}

abbrev accrued : DecodedProtocolEvent
accrued = record {
  contract_role = "susdp-savings";
  event_name = codes "Accrued";
  payload = decimal (pos 3);
  decoder_version = "susdp-savings-v1";
}

-- What is stored of an answer that holds the same log twice.
abbrev stored : Database
stored = record {
  blocks =
      record { number = 12; hash = codes "0xh"; parent_hash = codes "0xp"; timestamp = 100 } ∷ [];
  raw_logs = record { id = 1; run_id = 1; raw_log = raw_log } ∷ [];
  next_log_id = 3;
  protocol_events =
      record {
        raw_log_id = 1;
        block_number = 12;
        transaction_hash = codes "0xt";
        log_index = 4;
        event = accrued;
      }
      ∷ [];
  coverage = first_range ∷ [];
  checkpoint =
      some
        (record { next_block = 20; last_completed_block = none; last_completed_block_hash = none });
}

-- The log is stored once, and its event is counted twice.
abbrev counted : IngestionCounters
counted = record blank_counters {
  raw_logs_inserted = 1;
  duplicate_raw_logs = 1;
  events_decoded = 2;
}

log-stored_once :
    persist_chunk decode_event_log decoders [] 999 empty 1 first_range
      (log ∷ log ∷ [])
      (block 12 ∷ [])
      none
      none
      blank_counters
    ≡ (ok stored, counted)
unfolding persist_chunk build_decoders
log-stored_once = refl

persist_chunk_effect_example :
    (stored.checkpoint ≡ some (move_checkpoint first_range none none))
    × ((b : ℕ) → covered b stored.coverage ≡ (contains b first_range || covered b []))
    × (counted.raw_logs_inserted + counted.duplicate_raw_logs ≡ 0 + 0 + 2)
    × (counted.raw_logs_inserted + 0 ≡ 0 + length stored.raw_logs)
persist_chunk_effect_example =
    persist_chunk_effect decode_event_log decoders [] 999 empty 1 first_range (log ∷ log ∷ [])
      (block 12 ∷ []) none none blank_counters counted stored log-stored_once

decoded :
    decode_protocol_log decode_event_log decoders 999 address (codes "0x") (codes "0x1" ∷ [])
    ≡ some accrued
unfolding decode_protocol_log build_decoders parallel_usdp_hyperevm_i.Prelude.Text.text_eq
    to_lower_case
decoded = refl

decode_protocol_log-is_json_example : is_json accrued.payload ≡ true
decode_protocol_log-is_json_example =
    decode_protocol_log-is_json decode_event_log decoders 999 (codes "0x") (codes "0x1" ∷ [])
      address accrued decoded

-- A log that is stored, a new one, and the new one again with other text.
abbrev incoming : List RawLog
incoming =
    raw_log
    ∷ record raw_log { log_index = 9 }
    ∷ record raw_log { log_index = 9; log_data = codes "0xother" }
    ∷ []

stored-IsKeyed : IsKeyed stored.raw_logs
stored-IsKeyed key = ground arith

lookup-insert_raw_logs_example :
    (let after = insert_raw_logs 2 incoming stored.raw_logs 2 in
      (lookup after.raw_logs ≡ put_all (lookup stored.raw_logs) incoming)
      × IsKeyed after.raw_logs
      × (after.raw_logs ≡ stored.raw_logs ++ after.rows))
lookup-insert_raw_logs_example = lookup-insert_raw_logs 2 incoming stored.raw_logs 2 stored-IsKeyed

two_rows : length (insert_raw_logs 2 incoming stored.raw_logs 2).raw_logs ≡ 2
unfolding insert_raw_logs
two_rows = refl
