-- ===== src/Ingest/Store.antt =====
-- src/indexer/service.ts: `insertBlocks` and `persistChunk`, over the rows of one chain and one
-- scope. A statement of the transaction that the database refuses is the argument `fault`.
pub mod Chunk
pub mod Atomic
pub mod Refines
use parallel_usdp_hyperevm_i.Prelude.{
  ℕ, zero, suc, ◌+◌, ◌-◌, Bool, true, false, not, ◌&&◌, ◌||◌, List, [], ◌∷◌, ◌++◌, Option, none,
  some, ◌==◌, if◌then◌else◌, length, any, Result, ok, err, ◌>>=◌, String,
}
use parallel_usdp_hyperevm_i.Prelude.Text.{Text, to_lower_case, text_eq}
use parallel_usdp_hyperevm_i.Planner.{BlockRange}
use parallel_usdp_hyperevm_i.Decoder.{
  Abi, Decoders, DecodedProtocolEvent, decode_protocol_log, decoder_version_for_address,
  is_known_protocol_event_topic, first_topic,
}
use parallel_usdp_hyperevm_i.Decoder.Payload.{JsValue}
use parallel_usdp_hyperevm_i.Ingest.Types.{IngestionCounters, Log, StoredBlock}

pub record RawLog : Type 0 where
  pub block_number : ℕ
  pub block_hash : Text
  pub transaction_hash : Text
  pub transaction_index : ℕ
  pub log_index : ℕ
  pub contract_address : Text
  pub topics : List Text
  pub log_data : Text
  pub removed : Bool
  pub decoder_version : String

pub record RawLogRow : Type 0 where
  pub id : ℕ
  pub run_id : ℕ
  pub raw_log : RawLog

pub record ProtocolEventRow : Type 0 where
  pub raw_log_id : ℕ
  pub block_number : ℕ
  pub transaction_hash : Text
  pub log_index : ℕ
  pub event : DecodedProtocolEvent

pub record Checkpoint : Type 0 where
  pub next_block : ℕ
  pub last_completed_block : Option ℕ
  pub last_completed_block_hash : Option Text

-- `next_log_id` is the sequence of `raw_logs.id`.
pub record Database : Type 0 where
  pub blocks : List StoredBlock
  pub raw_logs : List RawLogRow
  pub next_log_id : ℕ
  pub protocol_events : List ProtocolEventRow
  pub coverage : List BlockRange
  pub checkpoint : Option Checkpoint

pub data PersistError : Type 0 where
  hash_drift incomplete_log : PersistError
  statement_failed : Text → PersistError

-- `Map.set` by the block's number.
unfoldable pub set_block : StoredBlock → List StoredBlock → List StoredBlock
set_block block [] = block ∷ []
set_block block (other ∷ rest) =
    if other.number == block.number then block ∷ rest else other ∷ set_block block rest

unfoldable pub unique_blocks : List StoredBlock → List StoredBlock → List StoredBlock
unfolding set_block
unique_blocks rows [] = rows
unique_blocks rows (block ∷ rest) = unique_blocks (set_block block rows) rest

unfoldable pub find_block : ℕ → List StoredBlock → Option StoredBlock
find_block n [] = none
find_block n (block ∷ rest) = if block.number == n then some block else find_block n rest

-- A text as a condition.
abbrev pub is_nonempty : Text → Bool
is_nonempty [] = false
is_nonempty (_ ∷ _) = true

abbrev pub drifts : Option StoredBlock → StoredBlock → Bool
drifts none block = false
drifts (some stored) block =
    is_nonempty stored.hash && not (text_eq (to_lower_case stored.hash) (to_lower_case block.hash))

unfoldable pub any_drift : List StoredBlock → List StoredBlock → Bool
unfolding find_block
any_drift stored rows = any (λ block. drifts (find_block block.number stored) block) rows

abbrev pub lowered : StoredBlock → StoredBlock
lowered block = record block {
  hash = to_lower_case block.hash;
  parent_hash = to_lower_case block.parent_hash;
}

abbrev pub is_stored : Option StoredBlock → Bool
is_stored none = false
is_stored (some _) = true

-- `on conflict (chain_id, number) do nothing`
unfoldable pub add_blocks : List StoredBlock → List StoredBlock → List StoredBlock
unfolding find_block
add_blocks stored [] = stored
add_blocks stored (block ∷ rest) =
    add_blocks
      (if is_stored (find_block block.number stored) then stored else stored ++ lowered block ∷ [])
      rest

-- With no blocks the source returns at once, which these clauses do too.
unfoldable pub insert_blocks :
    List StoredBlock → List StoredBlock → Result PersistError (List StoredBlock)
unfolding unique_blocks any_drift add_blocks
insert_blocks stored blocks =
    let rows = unique_blocks [] blocks in
    if any_drift stored rows then err hash_drift else ok (add_blocks stored rows)

-- `logs.map(…)`: a log that is not mined, or whose hashes are empty, is refused.
unfoldable pub incoming_log : Decoders → ℕ → Log → Option RawLog
unfolding decoder_version_for_address
incoming_log decoders chain_id log = elim log.block_number [
  | none ↦ none
  | some block_number ↦ elim log.block_hash [
    | none ↦ none
    | some block_hash ↦ elim log.transaction_hash [
      | none ↦ none
      | some transaction_hash ↦ elim log.transaction_index [
        | none ↦ none
        | some transaction_index ↦ elim log.log_index [
          | none ↦ none
          | some log_index ↦
              if is_nonempty block_hash && is_nonempty transaction_hash
              then some (record {
                block_number = block_number;
                block_hash = to_lower_case block_hash;
                transaction_hash = to_lower_case transaction_hash;
                transaction_index = transaction_index;
                log_index = log_index;
                contract_address = to_lower_case log.address;
                topics = log.topics;
                log_data = log.log_data;
                removed = log.removed;
                decoder_version = decoder_version_for_address decoders chain_id log.address;
              })
              else none
        ]
      ]
    ]
  ]
]

abbrev pub cons_some :
    Option RawLog → Result PersistError (List RawLog) → Result PersistError (List RawLog)
cons_some none rest = err incomplete_log
cons_some (some row) rest = rest >>= λ rows. ok (row ∷ rows)

unfoldable pub incoming_logs : Decoders → ℕ → List Log → Result PersistError (List RawLog)
unfolding incoming_log
incoming_logs decoders chain_id [] = ok []
incoming_logs decoders chain_id (log ∷ rest) =
    cons_some (incoming_log decoders chain_id log) (incoming_logs decoders chain_id rest)

-- The unique key `(chain_id, transaction_hash, log_index)` of `raw_logs`.
abbrev pub same_key : RawLog → RawLog → Bool
same_key a b = text_eq a.transaction_hash b.transaction_hash && a.log_index == b.log_index

unfoldable pub has_log : RawLog → List RawLogRow → Bool
unfolding text_eq
has_log raw_log rows = any (λ row. same_key row.raw_log raw_log) rows

-- What an insert returns: the table, the next id, and the inserted rows.
pub record Inserted : Type 0 where
  pub raw_logs : List RawLogRow
  pub next_log_id : ℕ
  pub rows : List RawLogRow

-- `on conflict … do nothing returning …`; a refused row still takes an id from the sequence.
unfoldable pub insert_raw_logs : ℕ → List RawLog → List RawLogRow → ℕ → Inserted
unfolding has_log
insert_raw_logs run_id [] table next_id = record {
  raw_logs = table;
  next_log_id = next_id;
  rows = [];
}
insert_raw_logs run_id (raw_log ∷ rest) table next_id =
    let row : RawLogRow = record { id = next_id; run_id = run_id; raw_log = raw_log } in
    let skipped = insert_raw_logs run_id rest table (next_id + 1) in
    let added = insert_raw_logs run_id rest (table ++ row ∷ []) (next_id + 1) in
    if has_log raw_log table then skipped else record added { rows = row ∷ added.rows }

-- `insertedByKey`, a map in which the last row of a key stands.
unfoldable pub inserted_id : RawLog → List RawLogRow → Option ℕ
unfolding text_eq
inserted_id raw_log [] = none
inserted_id raw_log (row ∷ rest) = elim (inserted_id raw_log rest) [
  | some id ↦ some id
  | none ↦ if same_key row.raw_log raw_log then some row.id else none
]
