-- ===== src/Ingest/Types.antt =====
-- src/indexer/service.ts: the counters, logs and blocks that ingestion passes around.
use parallel_usdp_hyperevm_i.Prelude.{ℕ, Bool, List, Option}
use parallel_usdp_hyperevm_i.Prelude.Text.{Text}

-- `blocksCovered` is a decimal text in the source, and its number here.
pub record IngestionCounters : Type 0 where
  pub chunks : ℕ
  pub blocks_covered : ℕ
  pub logs_fetched : ℕ
  pub raw_logs_inserted : ℕ
  pub duplicate_raw_logs : ℕ
  pub events_decoded : ℕ
  pub decode_failures : ℕ
  pub rpc_retries : ℕ
  pub chunk_reductions : ℕ

abbrev pub blank_counters : IngestionCounters
blank_counters = record {
  chunks = 0;
  blocks_covered = 0;
  logs_fetched = 0;
  raw_logs_inserted = 0;
  duplicate_raw_logs = 0;
  events_decoded = 0;
  decode_failures = 0;
  rpc_retries = 0;
  chunk_reductions = 0;
}

-- A log as the RPC library returns it: the fields that a pending log lacks are optional.
pub record Log : Type 0 where
  pub address : Text
  pub topics : List Text
  pub log_data : Text
  pub removed : Bool
  pub block_number : Option ℕ
  pub block_hash : Option Text
  pub transaction_hash : Option Text
  pub transaction_index : Option ℕ
  pub log_index : Option ℕ

pub record StoredBlock : Type 0 where
  pub number : ℕ
  pub hash : Text
  pub parent_hash : Text
  pub timestamp : ℕ
