-- ===== src/Readiness.antt =====
-- src/analytics/dashboard-readiness.ts: how far each chain's history is read and published. The
-- numeric columns hold numbers, and times are milliseconds.
pub mod Published
use parallel_usdp_hyperevm_i.Prelude.{
  ℕ, ◌+◌, ◌-◌, ◌*◌, ◌/◌, String, Bool, true, false, ◌&&◌, ◌||◌, ◌==◌, ltb, leb, List, [], ◌∷◌,
  Option, none, some, length, map, filter, any, first, sum_of, has, distinct_on, sort_by,
  if◌then◌else◌,
}
use mathlib.Core.Option.{map as map_option}
use text.Mathlib.Text.{◌==◌ as str_eq}
use parallel_usdp_hyperevm_i.Flows.{
  NativeFlowMetric, FlowAggregate, Granularity, same_metric, hour, day, susdp_deposited,
  susdp_withdrawn,
}
use parallel_usdp_hyperevm_i.Flows.Rebuild.{FlowAggregateRow}
use parallel_usdp_hyperevm_i.Intervals.{IntervalStatus}
use parallel_usdp_hyperevm_i.Multichain.Tables.{SavingsAsset, usdp, susdp}
use parallel_usdp_hyperevm_i.Yield.{YieldRow}

pub data CoverageKind : Type 0 where
  lifetime window : CoverageKind

pub record DashboardRange : Type 0 where
  pub chain_id : ℕ
  pub chain_slug : String
  pub chain_name : String
  pub scope : String
  pub coverage_kind : CoverageKind
  pub from_block : ℕ
  pub goal_block : ℕ

abbrev pub lifetime_range : ℕ → String → String → String → ℕ → ℕ → DashboardRange
lifetime_range chain_id slug name scope from_block goal_block = record {
  chain_id = chain_id;
  chain_slug = slug;
  chain_name = name;
  scope = scope;
  coverage_kind = lifetime;
  from_block = from_block;
  goal_block = goal_block;
}

abbrev pub lifetime_dashboard_ranges : List DashboardRange
lifetime_dashboard_ranges =
    lifetime_range 1 "ethereum" "Ethereum" "parallel-assets-ethereum-lifetime-v1" 22639007 25542442
    ∷ lifetime_range 8453 "base" "Base" "parallel-assets-base-lifetime-v1" 31200853 48691161
    ∷ lifetime_range 146 "sonic" "Sonic" "parallel-assets-sonic-lifetime-v1" 32199398 76014565
    ∷ lifetime_range 43114 "avalanche" "Avalanche" "parallel-assets-avalanche-lifetime-v1" 63383232
        90424055
    ∷ record {
      chain_id = 999;
      chain_slug = "hyperevm";
      chain_name = "HyperEVM";
      scope = "parallel-savings-hyperevm-1783558757-1784163557-v1";
      coverage_kind = window;
      from_block = 39958147;
      goal_block = 40572940;
    }
    ∷ []

-- `savingsDeploymentBlocks`
abbrev pub savings_deployment_block : ℕ → Option ℕ
savings_deployment_block chain_id =
    if chain_id == 1
    then some 22816779
    else if chain_id == 8453
    then some 32247463
    else if chain_id == 146
    then some 36579532
    else if chain_id == 43114
    then some 68411905
    else none

-- In hundredths of a percent. Every range ends at or after its first block, so that the divisor is
-- not zero.
unfoldable pub lifetime_progress_percent : ℕ → ℕ → Option ℕ → ℕ
lifetime_progress_percent from_block goal_block none = 0
lifetime_progress_percent from_block goal_block (some next_block) =
    let total = goal_block + 1 - from_block in
    let covered = if ltb goal_block next_block then total else next_block - from_block in
    if leb next_block from_block then 0 else (covered * 10000) / total

pub data PublicationStatus : Type 0 where
  not_started indexing deriving_activity published window_only : PublicationStatus

abbrev pub is_window : CoverageKind → Bool
is_window window = true
is_window lifetime = false

abbrev pub is_past : Option ℕ → ℕ → Bool
is_past none goal_block = false
is_past (some next_block) goal_block = ltb goal_block next_block

abbrev pub indexing_status : Option ℕ → PublicationStatus
indexing_status none = not_started
indexing_status (some next_block) = indexing

unfoldable pub lifetime_publication_status : Option ℕ → ℕ → ℕ → CoverageKind → PublicationStatus
lifetime_publication_status next_block goal_block published_assets coverage_kind =
    if is_window coverage_kind && is_past next_block goal_block
    then window_only
    else if leb 2 published_assets
    then published
    else if is_past next_block goal_block
    then deriving_activity
    else indexing_status next_block

-- A row of `indexer_checkpoints`.
pub record CheckpointRow : Type 0 where
  pub chain_id : ℕ
  pub scope : String
  pub next_block : ℕ
  pub updated_at : ℕ

-- A row of `asset_activity_aggregates`.
pub record ActivityRow : Type 0 where
  pub chain_id : ℕ
  pub asset_id : SavingsAsset
  pub source_scope : String
  pub history_complete : Bool
  pub created_at : ℕ
  pub window_start : ℕ
  pub window_end : ℕ
  pub transfer_volume : ℕ
  pub minted_volume : ℕ
  pub burned_volume : ℕ
  pub transfer_count : ℕ
  pub unique_participants : ℕ
  pub new_holders : ℕ
  pub active_holders : ℕ
  pub source_from_block : ℕ
  pub source_to_block : ℕ
  pub calculation_version : String

abbrev pub asset_rank : SavingsAsset → ℕ
asset_rank usdp = 0
asset_rank susdp = 1

-- The pair of the chain and the asset.
abbrev pub activity_key : ActivityRow → ℕ
activity_key row = 2 * row.chain_id + asset_rank row.asset_id

-- `order by chain_id, asset_id, source_to_block desc, created_at desc`
abbrev pub activity_before : ActivityRow → ActivityRow → Bool
activity_before a b =
    ltb (activity_key a) (activity_key b)
    || (activity_key a == activity_key b
        && (ltb b.source_to_block a.source_to_block
            || (a.source_to_block == b.source_to_block && ltb b.created_at a.created_at)))

abbrev pub is_dashboard_scope : String → Bool
is_dashboard_scope scope =
    any (λ (range : DashboardRange). str_eq range.scope scope) lifetime_dashboard_ranges

abbrev pub is_dashboard_chain : ℕ → Bool
is_dashboard_chain chain_id =
    any (λ (range : DashboardRange). range.chain_id == chain_id) lifetime_dashboard_ranges

abbrev pub is_read_activity : ActivityRow → Bool
is_read_activity row = is_dashboard_scope row.source_scope && row.history_complete

abbrev pub latest_activity : List ActivityRow → List ActivityRow
latest_activity table =
    distinct_on activity_key [] (sort_by activity_before (filter is_read_activity table))

abbrev pub is_activity_of : DashboardRange → ActivityRow → Bool
is_activity_of range row =
    row.chain_id == range.chain_id
    && row.source_from_block == range.from_block
    && row.source_to_block == range.goal_block

abbrev pub is_checkpoint_of : DashboardRange → CheckpointRow → Bool
is_checkpoint_of range row = row.chain_id == range.chain_id && str_eq row.scope range.scope

abbrev pub is_day : Granularity → Bool
is_day day = true
is_day hour = false

abbrev pub is_flow_of : DashboardRange → FlowAggregateRow → Bool
is_flow_of range row =
    row.chain_id == range.chain_id
    && is_day row.aggregate.granularity
    && row.source_from_block == range.from_block
    && row.source_to_block == range.goal_block

pub record LifetimeFlowMetric : Type 0 where
  pub deposited_assets : ℕ
  pub withdrawn_assets : ℕ
  pub deposit_count : ℕ
  pub withdraw_count : ℕ

abbrev pub with_metric : NativeFlowMetric → List FlowAggregateRow → List FlowAggregateRow
with_metric metric rows = filter (λ row. same_metric row.aggregate.metric metric) rows

-- The sums over a group of rows; a chain and range without rows has no group.
abbrev pub flow_metric : List FlowAggregateRow → Option LifetimeFlowMetric
flow_metric [] = none
flow_metric (row ∷ rows) =
    let deposits = with_metric susdp_deposited (row ∷ rows) in
    let withdrawals = with_metric susdp_withdrawn (row ∷ rows) in
    some (record {
      deposited_assets = sum_of (λ (r : FlowAggregateRow). r.aggregate.amount_base_units) deposits;
      withdrawn_assets =
          sum_of (λ (r : FlowAggregateRow). r.aggregate.amount_base_units) withdrawals;
      deposit_count = sum_of (λ (r : FlowAggregateRow). r.aggregate.event_count) deposits;
      withdraw_count = sum_of (λ (r : FlowAggregateRow). r.aggregate.event_count) withdrawals;
    })

abbrev pub is_verified_interval : IntervalStatus → Bool
is_verified_interval IntervalStatus.verified = true
is_verified_interval IntervalStatus.candidate = false
is_verified_interval IntervalStatus.invalid = false

-- `order by chain_id, created_at desc`
abbrev pub lifetime_yield_before : YieldRow → YieldRow → Bool
lifetime_yield_before a b =
    ltb a.chain_id b.chain_id || (a.chain_id == b.chain_id && ltb b.created_at a.created_at)

abbrev pub is_yield_from : DashboardRange → Option ℕ → YieldRow → Bool
is_yield_from range none row = false
is_yield_from range (some start) row =
    row.chain_id == range.chain_id && row.from_block == start && row.to_block == range.goal_block

abbrev pub lifetime_yield_of : DashboardRange → List YieldRow → Option YieldRow
lifetime_yield_of range table = first (
    filter (is_yield_from range (savings_deployment_block range.chain_id)) (
      sort_by lifetime_yield_before (
        filter
          (λ row. is_dashboard_chain row.chain_id && is_verified_interval row.reconciliation_status)
          table)))

pub record LifetimeDashboardRow : Type 0 where
  pub range : DashboardRange
  pub next_block : Option ℕ
  pub updated_at : Option ℕ
  pub progress_percent : ℕ
  pub publication_status : PublicationStatus
  pub published_assets : ℕ
  pub assets : List ActivityRow
  pub flows : Option LifetimeFlowMetric
  pub lifetime_yield : Option YieldRow

pub record DashboardTables : Type 0 where
  pub checkpoints : List CheckpointRow
  pub activity : List ActivityRow
  pub flow_aggregates : List FlowAggregateRow
  pub yields : List YieldRow

abbrev pub dashboard_row : DashboardTables → DashboardRange → LifetimeDashboardRow
dashboard_row tables range =
    let checkpoint = first (filter (is_checkpoint_of range) tables.checkpoints) in
    let asset_rows = filter (is_activity_of range) (latest_activity tables.activity) in
    let next_block = map_option (λ (row : CheckpointRow). row.next_block) checkpoint in
    record {
      range = range;
      next_block = next_block;
      updated_at = map_option (λ (row : CheckpointRow). row.updated_at) checkpoint;
      progress_percent = lifetime_progress_percent range.from_block range.goal_block next_block;
      publication_status =
          lifetime_publication_status next_block range.goal_block (length asset_rows)
            range.coverage_kind;
      published_assets = length asset_rows;
      assets = asset_rows;
      flows = flow_metric (filter (is_flow_of range) tables.flow_aggregates);
      lifetime_yield = lifetime_yield_of range tables.yields;
    }

unfoldable pub read_lifetime_dashboard : DashboardTables → List LifetimeDashboardRow
unfolding lifetime_progress_percent lifetime_publication_status
read_lifetime_dashboard tables = map (dashboard_row tables) lifetime_dashboard_ranges
