-- ===== src/Multichain/Tables.antt =====
-- src/analytics/multichain-snapshots.ts: the tables that a capture of a chain fills, and the inserts
-- of its transaction.
use parallel_usdp_hyperevm_i.Prelude.{
  first, ℕ, ◌≡◌, refl, String, Bool, true, false, ◌&&◌, ◌==◌, List, [], ◌∷◌, ◌++◌, Option, none,
  some, filter,
}
use parallel_usdp_hyperevm_i.Prelude.Text.{Text}
use text.Mathlib.Text.{◌==◌ as str_eq}
use parallel_usdp_hyperevm_i.Supply.Component.{BlockRow}

pub data SavingsAsset : Type 0 where
  usdp susdp : SavingsAsset

abbrev pub same_savings_asset : SavingsAsset → SavingsAsset → Bool
same_savings_asset usdp usdp = true
same_savings_asset susdp susdp = true
same_savings_asset usdp susdp = false
same_savings_asset susdp usdp = false

pub same_savings_asset_refl : (asset : SavingsAsset) → same_savings_asset asset asset ≡ true
same_savings_asset_refl usdp = refl
same_savings_asset_refl susdp = refl

pub record SavingsStateRead : Type 0 where
  pub asset : Text
  pub usdp_total_supply : ℕ
  pub susdp_total_assets : ℕ
  pub susdp_actual_assets : ℕ
  pub susdp_total_supply : ℕ
  pub susdp_share_price_usdp : ℕ
  pub susdp_rate : ℕ
  pub susdp_last_update : ℕ
  pub susdp_estimated_apy : ℕ
  pub susdp_max_rate : ℕ
  pub susdp_pause_state : ℕ

-- A row of `asset_chain_snapshots`.
pub record AssetRow : Type 0 where
  pub id : ℕ
  pub asset_id : SavingsAsset
  pub chain_id : ℕ
  pub block_number : ℕ
  pub block_hash : Text
  pub block_timestamp : ℕ
  pub total_supply : ℕ
  pub is_candidate : Bool
  pub manifest_version : String
  pub calculation_version : String

-- A row of `savings_chain_snapshots`.
pub record SavingsSnapshotRow : Type 0 where
  pub id : ℕ
  pub chain_id : ℕ
  pub block_number : ℕ
  pub block_hash : Text
  pub block_timestamp : ℕ
  pub usdp_snapshot_id : ℕ
  pub susdp_snapshot_id : ℕ
  pub state : SavingsStateRead
  pub susdp_pending_yield : ℕ
  pub usdp_implementation : Text
  pub susdp_implementation : Text
  pub asset_relationship_verified : Bool
  pub is_candidate : Bool
  pub manifest_version : String
  pub calculation_version : String

-- `next_asset_id` and `next_id` are the sequences of the two tables.
pub record SavingsTables : Type 0 where
  pub blocks : List BlockRow
  pub assets : List AssetRow
  pub snapshots : List SavingsSnapshotRow
  pub next_asset_id : ℕ
  pub next_id : ℕ

abbrev pub same_asset_row : AssetRow → AssetRow → Bool
same_asset_row a b =
    same_savings_asset b.asset_id a.asset_id
    && b.chain_id == a.chain_id
    && b.block_number == a.block_number
    && str_eq b.manifest_version a.manifest_version
    && str_eq b.calculation_version a.calculation_version

abbrev pub insert_asset_if : AssetRow → List AssetRow → Option AssetRow → ℕ × List AssetRow
insert_asset_if row rows none = (row.id, rows ++ row ∷ [])
insert_asset_if row rows (some existing) = (existing.id, rows)

-- `on conflict … do nothing`, and the id of the row that is there.
abbrev pub insert_asset : AssetRow → List AssetRow → ℕ × List AssetRow
insert_asset row rows = insert_asset_if row rows (first (filter (same_asset_row row) rows))

abbrev pub same_savings_row : SavingsSnapshotRow → SavingsSnapshotRow → Bool
same_savings_row a b =
    b.chain_id == a.chain_id
    && b.block_number == a.block_number
    && str_eq b.manifest_version a.manifest_version
    && str_eq b.calculation_version a.calculation_version

abbrev pub insert_savings_if :
    SavingsSnapshotRow
    → List SavingsSnapshotRow
    → Option SavingsSnapshotRow
    → ℕ × List SavingsSnapshotRow
insert_savings_if row rows none = (row.id, rows ++ row ∷ [])
insert_savings_if row rows (some existing) = (existing.id, rows)

abbrev pub insert_savings :
    SavingsSnapshotRow → List SavingsSnapshotRow → ℕ × List SavingsSnapshotRow
insert_savings row rows = insert_savings_if row rows (first (filter (same_savings_row row) rows))
