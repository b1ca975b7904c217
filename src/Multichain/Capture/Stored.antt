-- ===== src/Multichain/Capture/Stored.antt =====
-- What a capture of a chain stores.
use parallel_usdp_hyperevm_i.Prelude.{
  String, ℕ, ◌+◌, ◌≡◌, refl, Bool, true, ◌&&◌, ◌==◌, Option, none, some, any, Result, ok, err,
  ok-injective, >>=-eq-ok, arith, subst,
}
use parallel_usdp_hyperevm_i.Prelude.Text.{Text}
use parallel_usdp_hyperevm_i.Savings.{calculate_pending_yield}
use parallel_usdp_hyperevm_i.Multichain.Tables.{
  usdp, susdp, SavingsTables, insert_asset, same_savings_asset, SavingsAsset, AssetRow,
  SavingsSnapshotRow,
}
use parallel_usdp_hyperevm_i.Multichain.Capture.{
  ClientBlock, insert_block, str_eq, SavingsAdapter, SavingsClient, SavingsReads,
  capture_savings_chain_snapshot, store_savings, read_savings, savings_block_row, asset_row,
  requested_block, or_provider_error, SavingsError, or_hash_drift, or_pending_yield_error,
}
use parallel_usdp_hyperevm_i.Multichain.Capture.Rows.{
  AgreesAt, Extends, is_snapshot_of, insert_block_if-AgreesAt, insert_block_if-Extends,
  insert_asset_if-Extends, insert_savings_if-Extends, Extends-trans, any-Extends,
  insert_asset-stored, insert_savings-stored,
}

or_hash_drift-ok :
    {A : Type 0} (r : Result Text A) {value : A} → or_hash_drift r ≡ ok value → r ≡ ok value
or_hash_drift-ok (ok v) h = cc h
or_hash_drift-ok (err e) h = cc h

or_pending_yield_error-ok :
    {A : Type 0} (r : Result SavingsError A) {value : A}
    → or_pending_yield_error r ≡ ok value
    → r ≡ ok value
or_pending_yield_error-ok (ok v) h = cc h
or_pending_yield_error-ok (err e) h = cc h

calculate_pending_yield_lem :
    (total actual pending : ℕ)
    → calculate_pending_yield total actual ≡ ok pending
    → pending + actual ≡ total
unfolding calculate_pending_yield
calculate_pending_yield_lem total actual pending h = ground arith

or_provider_error-ok :
    {A : Type 0} (r : Result Text A) {value : A} → or_provider_error r ≡ ok value → r ≡ ok value
or_provider_error-ok (ok v) h = cc h
or_provider_error-ok (err e) h = cc h

-- The asset's snapshot that a savings snapshot names.
abbrev pub is_asset_of : SavingsSnapshotRow → SavingsAsset → ℕ → AssetRow → Bool
is_asset_of row asset id other =
    same_savings_asset other.asset_id asset
    && other.chain_id == row.chain_id
    && other.block_number == row.block_number
    && str_eq other.manifest_version row.manifest_version
    && str_eq other.calculation_version row.calculation_version
    && other.id == id

abbrev pub IsCaptured : SavingsSnapshotRow → ℕ → SavingsTables → SavingsTables → Type 0
IsCaptured row id before after =
    AgreesAt row.chain_id row.block_number row.block_hash after.blocks
    × (any (is_asset_of row usdp row.usdp_snapshot_id) after.assets ≡ true)
    × (any (is_asset_of row susdp row.susdp_snapshot_id) after.assets ≡ true)
    × (any (is_snapshot_of row id) after.snapshots ≡ true)
    × Extends before.blocks after.blocks
    × Extends before.assets after.assets
    × Extends before.snapshots after.snapshots

module _ (adapter : SavingsAdapter) (calculation_version : String) where
  store_savings-IsCaptured :
      (reads : SavingsReads) (row : SavingsSnapshotRow) (id : ℕ) (before after : SavingsTables)
      → store_savings adapter calculation_version reads before ≡ ok (row, id, after)
      → IsCaptured row id before after
        × (row.state ≡ reads.state)
        × (row.susdp_pending_yield ≡ reads.pending_yield)
  store_savings-IsCaptured reads row id before after h =
      let (blocks, b, r) =
        >>=-eq-ok
          (or_hash_drift
            (insert_block (savings_block_row adapter calculation_version reads) before.blocks))
          _ h in
      let added : insert_block (savings_block_row adapter calculation_version reads) before.blocks
          ≡ ok blocks =
        or_hash_drift-ok _ b in
      let u : AssetRow =
        asset_row adapter calculation_version reads usdp reads.state.usdp_total_supply
          before.next_asset_id in
      let v : AssetRow =
        asset_row adapter calculation_version reads susdp reads.state.susdp_total_supply
          (before.next_asset_id + 1) in
      let (usdp_id, with_usdp) = insert_asset u before.assets in
      let first_grows : Extends before.assets with_usdp =
        insert_asset_if-Extends u before.assets _ in
      let then_grows : Extends with_usdp (insert_asset v with_usdp).1 =
        insert_asset_if-Extends v with_usdp _ in
      subst
        (λ (t : SavingsSnapshotRow × ℕ × SavingsTables).
          IsCaptured t.0 t.1 before t.2
          × (t.0.state ≡ reads.state)
          × (t.0.susdp_pending_yield ≡ reads.pending_yield))
        (ok-injective r)
        (
          (
            insert_block_if-AgreesAt _ before.blocks blocks _ refl added,
            any-Extends _ _ _ then_grows (insert_asset-stored u before.assets),
            insert_asset-stored v with_usdp,
            insert_savings-stored _ before.snapshots,
            insert_block_if-Extends _ before.blocks blocks _ added,
            Extends-trans _ _ _ first_grows then_grows,
            insert_savings_if-Extends _ before.snapshots _,
          ),
          refl,
          refl,
        )

  read_savings_lem :
      (get_address : Text → Text) (client : SavingsClient) (block : ClientBlock) (number : Option ℕ)
      (hash : Option Text) (reads : SavingsReads)
      → read_savings adapter calculation_version get_address client block number hash ≡ ok reads
      → reads.pending_yield + reads.state.susdp_actual_assets ≡ reads.state.susdp_total_assets
  read_savings_lem get_address client block none hash reads h = cc h
  read_savings_lem get_address client block (some number) none reads h = cc h
  read_savings_lem get_address client block (some number) (some hash) reads h =
      let (state, s, r) = >>=-eq-ok (or_provider_error (client.state_at number)) _ h in
      let (pending, p, e) =
        >>=-eq-ok
          (or_pending_yield_error
            (calculate_pending_yield state.susdp_total_assets state.susdp_actual_assets))
          _ r in
      subst
        (λ (t : SavingsReads).
          t.pending_yield + t.state.susdp_actual_assets ≡ t.state.susdp_total_assets)
        (ok-injective e) (calculate_pending_yield_lem _ _ _ (or_pending_yield_error-ok _ p))

  -- After a capture of a chain that succeeds: the row of its block has the captured hash, whatever
  -- its case; the two rows of assets that the snapshot names are there, with its chain, block and
  -- versions; a savings snapshot of the chain, block and versions stands under the reported id; the
  -- three tables have only grown; and the pending yield of the row with the actual assets makes the
  -- total assets.
  pub capture_savings_chain_snapshot-IsCaptured :
      (get_address : Text → Text) (client : SavingsClient) (finality_lag : ℕ)
      (block_number : Option ℕ) (before after : SavingsTables) (row : SavingsSnapshotRow) (id : ℕ)
      → capture_savings_chain_snapshot adapter calculation_version get_address client finality_lag
          block_number before
        ≡ ok (row, id, after)
      → IsCaptured row id before after
        × (row.susdp_pending_yield + row.state.susdp_actual_assets ≡ row.state.susdp_total_assets)
  unfolding capture_savings_chain_snapshot
  capture_savings_chain_snapshot-IsCaptured get_address client finality_lag block_number before
        after row id h =
      let (block, b, r) =
        >>=-eq-ok
          (or_provider_error (requested_block client adapter.finality finality_lag block_number)) _
          h in
      let (reads, q, s) =
        >>=-eq-ok
          (read_savings adapter calculation_version get_address client block block.number
            block.hash)
          _ r in
      let (captured, same, pending) = store_savings-IsCaptured reads row id before after s in
      (captured, cc (read_savings_lem get_address client block _ _ reads q, pending, same))
