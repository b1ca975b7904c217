-- ===== src/Tests/Showing.antt =====
-- The dashboard at tables of one chain that is read in full.
use parallel_usdp_hyperevm_i.Prelude.{String, ℕ, ◌≡◌, refl, All, List, [], ◌∷◌, true, map}
use parallel_usdp_hyperevm_i.Multichain.Tables.{SavingsAsset, usdp, susdp}
use parallel_usdp_hyperevm_i.Readiness.{
  ActivityRow, CheckpointRow, DashboardTables, LifetimeDashboardRow, published, indexing,
  not_started, deriving_activity, window_only, read_lifetime_dashboard,
}
use parallel_usdp_hyperevm_i.Readiness.Published.{IsSound, read_lifetime_dashboard-IsSound}

abbrev activity : SavingsAsset → ActivityRow
activity asset = record {
  chain_id = 1;
  asset_id = asset;
  source_scope = "parallel-assets-ethereum-lifetime-v1";
  history_complete = true;
  created_at = 5;
  window_start = 1;
  window_end = 2;
  transfer_volume = 30;
  minted_volume = 20;
  burned_volume = 10;
  transfer_count = 3;
  unique_participants = 2;
  new_holders = 1;
  active_holders = 1;
  source_from_block = 22639007;
  source_to_block = 25542442;
  calculation_version = "c";
}

abbrev checkpoint : ℕ → String → ℕ → CheckpointRow
checkpoint chain scope next = record {
  chain_id = chain;
  scope = scope;
  next_block = next;
  updated_at = 9;
}

abbrev tables : DashboardTables
tables = record {
  checkpoints =
      checkpoint 1 "parallel-assets-ethereum-lifetime-v1" 25542443
      ∷ checkpoint 8453 "parallel-assets-base-lifetime-v1" 48691162
      ∷ checkpoint 146 "parallel-assets-sonic-lifetime-v1" 40000000
      ∷ checkpoint 999 "parallel-savings-hyperevm-1783558757-1784163557-v1" 40572941
      ∷ [];
  activity = activity usdp ∷ activity susdp ∷ [];
  flow_aggregates = [];
  yields = [];
}

shown :
    map (λ (row : LifetimeDashboardRow). row.publication_status) (read_lifetime_dashboard tables)
    ≡ published ∷ deriving_activity ∷ indexing ∷ not_started ∷ window_only ∷ []
unfolding read_lifetime_dashboard parallel_usdp_hyperevm_i.Prelude.distinct_on
    parallel_usdp_hyperevm_i.Prelude.sort_by
shown = refl

progress :
    map (λ (row : LifetimeDashboardRow). row.progress_percent) (read_lifetime_dashboard tables)
    ≡ 10000 ∷ 10000 ∷ 1780 ∷ 0 ∷ 10000 ∷ []
unfolding read_lifetime_dashboard
progress = refl

read_lifetime_dashboard-IsSound_example : All (IsSound tables) (read_lifetime_dashboard tables)
read_lifetime_dashboard-IsSound_example = read_lifetime_dashboard-IsSound tables
