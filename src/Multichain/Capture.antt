-- ===== src/Multichain/Capture.antt =====
-- src/analytics/multichain-snapshots.ts: `captureSavingsChainSnapshot`. What the client answers is an argument; the reads of the
-- contracts at one block are one answer. Errors are told apart by their kind.
pub mod Rows
pub mod Stored
use parallel_usdp_hyperevm_i.Prelude.{
  first, ℕ, ◌+◌, ◌-◌, ◌*◌, String, Bool, true, false, ◌&&◌, ◌||◌, ◌==◌, List, [], ◌∷◌, ◌++◌, Option,
  none, some, Result, ok, err, ◌>>=◌, if◌then◌else◌, filter, length,
}
use parallel_usdp_hyperevm_i.Prelude.Int.{ℤ, pos, ◌-ℤ◌}
use parallel_usdp_hyperevm_i.Prelude.Text.{Text, codes, text_eq, to_lower_case}
use text.Mathlib.Text.{◌==◌ as str_eq}
use parallel_usdp_hyperevm_i.Holders.{zero_address}
use parallel_usdp_hyperevm_i.Savings.{SavingsError, calculate_pending_yield}
use parallel_usdp_hyperevm_i.Supply.Component.{
  ClientBlock, BlockRow, insert_block, SupplyFinality, rpc_finalized, confirmation_lag,
}
use parallel_usdp_hyperevm_i.Multichain.Tables.{
  SavingsAsset, usdp, susdp, SavingsStateRead, AssetRow, SavingsSnapshotRow, SavingsTables,
  insert_asset, insert_savings,
}

pub record SavingsAdapter : Type 0 where
  pub chain_id : ℕ
  pub usdp_address : Text
  pub susdp_address : Text
  pub finality : SupplyFinality
  pub manifest_version : String

pub record SavingsClient : Type 0 where
  pub finalized : Result Text ClientBlock
  pub block_number : Result Text ℕ
  pub block_at : ℤ → Result Text ClientBlock
  pub state_at : ℕ → Result Text SavingsStateRead
  pub storage_at : Text → ℕ → Result Text (Option Text)

pub data CaptureError : Type 0 where
  block_incomplete block_hash_drift : CaptureError
  provider_error : Text → CaptureError
  pending_yield_error : SavingsError → CaptureError

abbrev pub or_provider_error : {A : Type 0} → Result Text A → Result CaptureError A
or_provider_error (ok value) = ok value
or_provider_error (err message) = err (provider_error message)

abbrev pub or_hash_drift : {A : Type 0} → Result Text A → Result CaptureError A
or_hash_drift (ok value) = ok value
or_hash_drift (err message) = err block_hash_drift

abbrev pub or_pending_yield_error : {A : Type 0} → Result SavingsError A → Result CaptureError A
or_pending_yield_error (ok value) = ok value
or_pending_yield_error (err error) = err (pending_yield_error error)

abbrev pub finalized_savings_block : SavingsClient → SupplyFinality → ℕ → Result Text ClientBlock
finalized_savings_block client rpc_finalized finality_lag = client.finalized
finalized_savings_block client confirmation_lag finality_lag =
    client.block_number >>= λ head. client.block_at (pos head -ℤ pos finality_lag)

abbrev pub requested_block : SavingsClient → SupplyFinality → ℕ → Option ℕ → Result Text ClientBlock
requested_block client finality finality_lag none =
    finalized_savings_block client finality finality_lag
requested_block client finality finality_lag (some number) = client.block_at (pos number)

-- src/protocol/discovery.ts: `implementationAddressFromSlot`; `value.slice(-40)` is the text from
-- its length less 40 on.
abbrev pub from_index : ℕ → Text → Text
from_index n [] = []
from_index n (c ∷ cs) = if n == 0 then c ∷ cs else from_index (n - 1) cs

unfoldable pub implementation_address_from_slot : (Text → Text) → Option Text → Option Text
unfolding text_eq
implementation_address_from_slot get_address none = none
implementation_address_from_slot get_address (some value) =
    let raw_address = codes "0x" ++ from_index (length value - 40) value in
    if text_eq value [] || text_eq value (codes "0x") || text_eq raw_address zero_address
    then none
    else some (get_address raw_address)

-- A slot that cannot be read counts as unset, and an unset slot as the zero address.
abbrev pub or_zero_address : (Text → Text) → Result Text (Option Text) → Text
or_zero_address get_address (err message) = zero_address
or_zero_address get_address (ok slot) = elim (implementation_address_from_slot get_address slot) [
  | none ↦ zero_address
  | some address ↦ address
]

-- The asset of the vault is the chain's USDp.
abbrev pub is_asset_relationship_verified : SavingsAdapter → SavingsStateRead → Bool
is_asset_relationship_verified adapter state =
    text_eq (to_lower_case state.asset) (to_lower_case adapter.usdp_address)

-- What has been read before the transaction.
pub record SavingsReads : Type 0 where
  pub number : ℕ
  pub hash : Text
  pub parent_hash : Text
  pub timestamp : ℕ
  pub state : SavingsStateRead
  pub usdp_implementation : Text
  pub susdp_implementation : Text
  pub pending_yield : ℕ

module _ (adapter : SavingsAdapter) (calculation_version : String) where
  abbrev pub savings_block_row : SavingsReads → BlockRow
  savings_block_row reads = record {
    chain_id = adapter.chain_id;
    number = reads.number;
    hash = to_lower_case reads.hash;
    parent_hash = reads.parent_hash;
    timestamp = reads.timestamp * 1000;
  }

  abbrev pub asset_row : SavingsReads → SavingsAsset → ℕ → ℕ → AssetRow
  asset_row reads asset total_supply id = record {
    id = id;
    asset_id = asset;
    chain_id = adapter.chain_id;
    block_number = reads.number;
    block_hash = to_lower_case reads.hash;
    block_timestamp = reads.timestamp * 1000;
    total_supply = total_supply;
    is_candidate = is_asset_relationship_verified adapter reads.state;
    manifest_version = adapter.manifest_version;
    calculation_version = calculation_version;
  }

  abbrev pub savings_row : SavingsReads → ℕ → ℕ → ℕ → SavingsSnapshotRow
  savings_row reads usdp_id susdp_id id = record {
    id = id;
    chain_id = adapter.chain_id;
    block_number = reads.number;
    block_hash = to_lower_case reads.hash;
    block_timestamp = reads.timestamp * 1000;
    usdp_snapshot_id = usdp_id;
    susdp_snapshot_id = susdp_id;
    state = reads.state;
    susdp_pending_yield = reads.pending_yield;
    usdp_implementation = to_lower_case reads.usdp_implementation;
    susdp_implementation = to_lower_case reads.susdp_implementation;
    asset_relationship_verified = is_asset_relationship_verified adapter reads.state;
    is_candidate = is_asset_relationship_verified adapter reads.state;
    manifest_version = adapter.manifest_version;
    calculation_version = calculation_version;
  }

  -- The transaction, once the block is in its table.
  abbrev pub with_block :
      SavingsReads → SavingsTables → List BlockRow → SavingsSnapshotRow × ℕ × SavingsTables
  with_block reads tables blocks =
      let (usdp_id, with_usdp) =
        insert_asset (asset_row reads usdp reads.state.usdp_total_supply tables.next_asset_id)
          tables.assets in
      let (susdp_id, with_susdp) =
        insert_asset
          (asset_row reads susdp reads.state.susdp_total_supply (tables.next_asset_id + 1))
          with_usdp in
      let row = savings_row reads usdp_id susdp_id tables.next_id in
      let (snapshot_id, snapshots) = insert_savings row tables.snapshots in
      (
        row,
        snapshot_id,
        record {
          blocks = blocks;
          assets = with_susdp;
          snapshots = snapshots;
          next_asset_id = tables.next_asset_id + 2;
          next_id = tables.next_id + 1;
        },
      )

  abbrev pub store_savings :
      SavingsReads → SavingsTables → Result CaptureError (SavingsSnapshotRow × ℕ × SavingsTables)
  store_savings reads tables =
      or_hash_drift (insert_block (savings_block_row reads) tables.blocks) >>= λ blocks.
      ok (with_block reads tables blocks)

  -- The reads at a block that has a number and a hash.
  abbrev pub read_savings :
      (Text → Text)
      → SavingsClient
      → ClientBlock
      → Option ℕ
      → Option Text
      → Result CaptureError SavingsReads
  read_savings get_address client block none hash = err block_incomplete
  read_savings get_address client block (some number) none = err block_incomplete
  read_savings get_address client block (some number) (some hash) =
      or_provider_error (client.state_at number) >>= λ state.
      or_pending_yield_error
        (calculate_pending_yield state.susdp_total_assets state.susdp_actual_assets)
      >>= λ pending_yield. ok (record {
        number = number;
        hash = hash;
        parent_hash = block.parent_hash;
        timestamp = block.timestamp;
        state = state;
        usdp_implementation =
            or_zero_address get_address (client.storage_at adapter.usdp_address number);
        susdp_implementation =
            or_zero_address get_address (client.storage_at adapter.susdp_address number);
        pending_yield = pending_yield;
      })

  -- The row as it was read, the id under which its block stands, and the tables.
  unfoldable pub capture_savings_chain_snapshot :
      (Text → Text)
      → SavingsClient
      → ℕ
      → Option ℕ
      → SavingsTables
      → Result CaptureError (SavingsSnapshotRow × ℕ × SavingsTables)
  unfolding calculate_pending_yield implementation_address_from_slot
  capture_savings_chain_snapshot get_address client finality_lag block_number tables =
      or_provider_error (requested_block client adapter.finality finality_lag block_number)
      >>= λ block. read_savings get_address client block block.number block.hash >>= λ reads.
          store_savings reads tables
