-- ===== src/Supply/Component.antt =====
-- src/analytics/usdp-supply.ts: `captureUsdpSupplyComponent`, with its block, its reads at that
-- block and its transaction. What the client answers is an argument.
use parallel_usdp_hyperevm_i.Prelude.{
  first, ℕ, ◌+◌, ◌*◌, String, Bool, false, not, ◌&&◌, ◌==◌, ltb, List, [], ◌∷◌, ◌++◌, Option, none,
  some, Result, ok, err, ◌>>=◌, if◌then◌else◌, filter,
}
use parallel_usdp_hyperevm_i.Prelude.Int.{ℤ, pos, ◌-ℤ◌}
use parallel_usdp_hyperevm_i.Prelude.Text.{Text, codes, decimal_text, text_eq, to_lower_case}
use text.Mathlib.Text.{◌==◌ as str_eq}
use parallel_usdp_hyperevm_i.Supply.{UsdpSupplyComponent, distance}

pub data SupplyFinality : Type 0 where
  rpc_finalized confirmation_lag : SupplyFinality

pub data FinalityMode : Type 0 where
  rpc_finalized_mode confirmation_lag_mode confirmation_lag_fallback : FinalityMode

-- A block as the client returns it: one that is not mined has no number and no hash.
pub record ClientBlock : Type 0 where
  pub number : Option ℕ
  pub hash : Option Text
  pub parent_hash : Text
  pub timestamp : ℕ

-- The answers of one client. `read` is the bytecode with the four values of the token, all read
-- at one block.
pub record TokenReads : Type 0 where
  pub bytecode : Option Text
  pub observed_name : Text
  pub observed_symbol : Text
  pub observed_decimals : ℕ
  pub total_supply : ℕ

pub record SupplyClient : Type 0 where
  pub finalized : Result Text ClientBlock
  pub block_number : Result Text ℕ
  pub block_at : ℤ → Result Text ClientBlock
  pub read : ℕ → Result Text TokenReads

-- Both times are in seconds.
abbrev pub is_block_timestamp_outside_alignment : ℕ → ℕ → ℕ → Bool
is_block_timestamp_outside_alignment block_timestamp observed_at maximum_skew_seconds =
    ltb maximum_skew_seconds (distance observed_at block_timestamp)

abbrev pub lagging_block :
    SupplyClient → ℕ → FinalityMode → Result Text (ClientBlock × FinalityMode)
lagging_block client finality_lag mode = client.block_number >>= λ head.
    client.block_at (pos head -ℤ pos finality_lag) >>= λ block. ok (block, mode)

-- A finalized block that is out of line, or that the provider does not give, is replaced by a
-- block behind the head.
abbrev pub finalized_or_lagging :
    SupplyClient → ℕ → ℕ → ℕ → Result Text ClientBlock → Result Text (ClientBlock × FinalityMode)
finalized_or_lagging client finality_lag observed_at skew (err message) =
    lagging_block client finality_lag confirmation_lag_fallback
finalized_or_lagging client finality_lag observed_at skew (ok block) =
    if is_block_timestamp_outside_alignment block.timestamp observed_at skew
    then lagging_block client finality_lag confirmation_lag_fallback
    else ok (block, rpc_finalized_mode)

abbrev pub finalized_block :
    SupplyClient → SupplyFinality → ℕ → ℕ → ℕ → Result Text (ClientBlock × FinalityMode)
finalized_block client confirmation_lag finality_lag observed_at skew =
    lagging_block client finality_lag confirmation_lag_mode
finalized_block client rpc_finalized finality_lag observed_at skew =
    finalized_or_lagging client finality_lag observed_at skew client.finalized

-- A row of `blocks`.
pub record BlockRow : Type 0 where
  pub chain_id : ℕ
  pub number : ℕ
  pub hash : Text
  pub parent_hash : Text
  pub timestamp : ℕ

-- A row of `asset_chain_snapshots` for USDp, under one calculation version.
pub record AssetSnapshotRow : Type 0 where
  pub id : ℕ
  pub chain_id : ℕ
  pub block_number : ℕ
  pub block_hash : Text
  pub total_supply : ℕ
  pub is_candidate : Bool
  pub manifest_version : String

-- A row of `usdp_supply_snapshot_evidence`.
pub record EvidenceRow : Type 0 where
  pub asset_snapshot_id : ℕ
  pub reads : TokenReads
  pub metadata_verified : Bool
  pub finality_mode : FinalityMode

-- `next_id` is the sequence of the snapshots' ids.
pub record SupplyState : Type 0 where
  pub blocks : List BlockRow
  pub asset_snapshots : List AssetSnapshotRow
  pub evidence : List EvidenceRow
  pub next_id : ℕ

abbrev pub same_block : BlockRow → BlockRow → Bool
same_block block row = row.chain_id == block.chain_id && row.number == block.number

-- The row that is there stays if its hash is the same, whatever its case.
abbrev pub insert_block_if :
    BlockRow → List BlockRow → Option BlockRow → Result Text (List BlockRow)
insert_block_if block rows none = ok (
    rows
    ++ record block {
      hash = to_lower_case block.hash;
      parent_hash = to_lower_case block.parent_hash;
    }
      ∷ [])
insert_block_if block rows (some existing) =
    if text_eq (to_lower_case existing.hash) (to_lower_case block.hash)
    then ok rows
    else err (
        codes "Block hash drift on chain "
        ++ decimal_text block.chain_id
        ++ codes " at "
        ++ decimal_text block.number)

abbrev pub insert_block : BlockRow → List BlockRow → Result Text (List BlockRow)
insert_block block rows = insert_block_if block rows (first (filter (same_block block) rows))

abbrev pub same_snapshot : AssetSnapshotRow → AssetSnapshotRow → Bool
same_snapshot a b =
    b.chain_id == a.chain_id
    && b.block_number == a.block_number
    && str_eq b.manifest_version a.manifest_version

-- `do nothing` on a conflict, and the id of the row that is there.
abbrev pub insert_snapshot_if :
    AssetSnapshotRow → List AssetSnapshotRow → Option AssetSnapshotRow → ℕ × List AssetSnapshotRow
insert_snapshot_if snapshot rows none = (snapshot.id, rows ++ snapshot ∷ [])
insert_snapshot_if snapshot rows (some existing) = (existing.id, rows)

abbrev pub insert_asset_snapshot :
    AssetSnapshotRow → List AssetSnapshotRow → ℕ × List AssetSnapshotRow
insert_asset_snapshot snapshot rows =
    insert_snapshot_if snapshot rows (first (filter (same_snapshot snapshot) rows))

abbrev pub is_evidence_of : ℕ → EvidenceRow → Bool
is_evidence_of id row = row.asset_snapshot_id == id

-- `on conflict (asset_snapshot_id) do update`
abbrev pub upsert_evidence : EvidenceRow → List EvidenceRow → List EvidenceRow
upsert_evidence row rows =
    filter (λ other. not (is_evidence_of row.asset_snapshot_id other)) rows ++ row ∷ []

abbrev pub has_code : Option Text → Bool
has_code none = false
has_code (some code) = not (text_eq code []) && not (text_eq code (codes "0x"))

abbrev pub is_metadata_verified : TokenReads → Bool
is_metadata_verified reads =
    text_eq reads.observed_name (codes "USDp")
    && text_eq reads.observed_symbol (codes "USDp")
    && reads.observed_decimals == 18

pub record SupplyAdapter : Type 0 where
  pub chain_id : ℕ
  pub finality : SupplyFinality
  pub manifest_version : String

abbrev pub block_row : SupplyAdapter → ℕ → Text → Text → ℕ → BlockRow
block_row adapter number hash parent_hash timestamp = record {
  chain_id = adapter.chain_id;
  number = number;
  hash = hash;
  parent_hash = parent_hash;
  timestamp = timestamp * 1000;
}

abbrev pub snapshot_row : SupplyAdapter → ℕ → Text → TokenReads → ℕ → AssetSnapshotRow
snapshot_row adapter number hash reads id = record {
  id = id;
  chain_id = adapter.chain_id;
  block_number = number;
  block_hash = hash;
  total_supply = reads.total_supply;
  is_candidate = is_metadata_verified reads;
  manifest_version = adapter.manifest_version;
}

abbrev pub evidence_row : ℕ → TokenReads → FinalityMode → EvidenceRow
evidence_row id reads mode = record {
  asset_snapshot_id = id;
  reads = reads;
  metadata_verified = is_metadata_verified reads;
  finality_mode = mode;
}

abbrev pub component_of : SupplyAdapter → ℕ → TokenReads → ℕ → UsdpSupplyComponent
component_of adapter timestamp reads id = record {
  asset_snapshot_id = id;
  chain_id = adapter.chain_id;
  block_timestamp = timestamp * 1000;
  total_supply = reads.total_supply;
  metadata_verified = is_metadata_verified reads;
}

-- The transaction; an error leaves the tables as they were.
abbrev pub store_component :
    SupplyAdapter
    → FinalityMode
    → ℕ
    → Text
    → Text
    → ℕ
    → TokenReads
    → SupplyState
    → Result Text (UsdpSupplyComponent × SupplyState)
store_component adapter mode number hash parent_hash timestamp reads state =
    insert_block (block_row adapter number (to_lower_case hash) parent_hash timestamp) state.blocks
    >>= λ blocks.
        let (id, snapshots) =
          insert_asset_snapshot
            (snapshot_row adapter number (to_lower_case hash) reads state.next_id)
            state.asset_snapshots in
        ok (
          component_of adapter timestamp reads id,
          record {
            blocks = blocks;
            asset_snapshots = snapshots;
            evidence = upsert_evidence (evidence_row id reads mode) state.evidence;
            next_id = state.next_id + 1;
          },
        )

abbrev pub with_reads :
    SupplyAdapter
    → SupplyClient
    → FinalityMode
    → ClientBlock
    → Option ℕ
    → Option Text
    → SupplyState
    → Result Text (UsdpSupplyComponent × SupplyState)
with_reads adapter client mode block (some number) (some hash) state =
    client.read number >>= λ reads.
    if has_code reads.bytecode
    then store_component adapter mode number hash block.parent_hash block.timestamp reads state
    else err (codes "USDp code missing")
with_reads adapter client mode block none hash state = err (codes "block incomplete")
with_reads adapter client mode block (some number) none state = err (codes "block incomplete")

-- `observed_at` is in seconds here.
unfoldable pub capture_usdp_supply_component :
    SupplyAdapter
    → SupplyClient
    → ℕ
    → ℕ
    → ℕ
    → SupplyState
    → Result Text (UsdpSupplyComponent × SupplyState)
capture_usdp_supply_component adapter client finality_lag observed_at skew state =
    finalized_block client adapter.finality finality_lag observed_at skew >>= λ found.
    with_reads adapter client found.1 found.0 found.0.number found.0.hash state
