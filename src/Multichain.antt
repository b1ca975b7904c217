-- ===== src/Multichain.antt =====
-- src/analytics/multichain-snapshots.ts: `aggregateSavingsComponents` and what
-- `createGlobalSavingsSnapshot` stores. Times are milliseconds; the amounts are the numbers that
-- the numeric columns hold, and the ids of the snapshots are numbers.

pub mod Average
pub mod Tables
pub mod Capture
pub mod Yields
pub mod Complete
use parallel_usdp_hyperevm_i.Prelude.{
  ℕ, ◌+◌, ◌-◌, ◌*◌, ◌/◌, Bool, not, ◌&&◌, ◌||◌, ◌==◌, ltb, leb, List, [], ◌∷◌, ◌++◌, Option, none,
  some, length, map, filter, sum_of, has, distinct_on, sort_by, if◌then◌else◌,
}

pub data CoverageStatus : Type 0 where
  complete partial unavailable : CoverageStatus

-- `snapshot_status`: only "invalid" is told apart.
pub data SnapshotStatus : Type 0 where
  candidate verified invalid : SnapshotStatus

abbrev pub is_invalid : SnapshotStatus → Bool
is_invalid candidate = Bool.false
is_invalid verified = Bool.false
is_invalid invalid = Bool.true

pub record SavingsAggregationComponent : Type 0 where
  pub snapshot_id : ℕ
  pub chain_id : ℕ
  pub block_timestamp : ℕ
  pub snapshot_status : SnapshotStatus
  pub usdp_total_supply : ℕ
  pub susdp_total_supply : ℕ
  pub susdp_total_assets : ℕ
  pub susdp_estimated_apy : ℕ

abbrev pub coverage_status : ℕ → ℕ → CoverageStatus
coverage_status included expected =
    if included == expected then complete else if ltb 0 included then partial else unavailable

-- `Math.max(0, Math.floor((asOf - timestamp) / 1_000))`: a difference below zero counts as 0.
abbrev pub age_seconds : ℕ → ℕ → ℕ
age_seconds as_of timestamp = (as_of - timestamp) / 1000

abbrev pub is_stale : ℕ → ℕ → SavingsAggregationComponent → Bool
is_stale as_of maximum_age_seconds component =
    ltb maximum_age_seconds (age_seconds as_of component.block_timestamp)
    || is_invalid component.snapshot_status

-- `Math.min(...timestamps)` and `Math.max(...timestamps)`, null where there are none
abbrev pub minimum : List ℕ → Option ℕ
minimum [] = none
minimum (x ∷ xs) = elim (minimum xs) [
  | none ↦ some x
  | some least ↦ some (if ltb least x then least else x)
]

abbrev pub maximum : List ℕ → Option ℕ
maximum [] = none
maximum (x ∷ xs) = elim (maximum xs) [
  | none ↦ some x
  | some greatest ↦ some (if ltb x greatest then greatest else x)
]

abbrev pub missing_chain_ids_of : List ℕ → List ℕ → List ℕ
missing_chain_ids_of observed expected = filter (λ chain_id. not (has chain_id observed)) expected

pub record SavingsAggregate : Type 0 where
  pub coverage : CoverageStatus
  pub included : List SavingsAggregationComponent
  pub included_chain_ids : List ℕ
  pub missing_chain_ids : List ℕ
  pub stale_chain_ids : List ℕ
  pub usdp_supply_on_savings_chains : ℕ
  pub susdp_total_assets : ℕ
  pub susdp_total_supply : ℕ
  pub weighted_estimated_apy : Option ℕ
  pub oldest_component_timestamp : Option ℕ
  pub newest_component_timestamp : Option ℕ
  pub maximum_component_age_seconds : Option ℕ

abbrev pub chain_ids : List SavingsAggregationComponent → List ℕ
chain_ids components = map (λ (c : SavingsAggregationComponent). c.chain_id) components

abbrev pub timestamps : List SavingsAggregationComponent → List ℕ
timestamps components = map (λ (c : SavingsAggregationComponent). c.block_timestamp) components

abbrev pub total_assets : List SavingsAggregationComponent → ℕ
total_assets components = sum_of (λ c. c.susdp_total_assets) components

abbrev pub weighted_apy : List SavingsAggregationComponent → ℕ
weighted_apy components = sum_of (λ c. c.susdp_total_assets * c.susdp_estimated_apy) components

abbrev pub age_of : ℕ → Option ℕ → Option ℕ
age_of as_of none = none
age_of as_of (some oldest) = some (age_seconds as_of oldest)

abbrev pub stale_of : ℕ → ℕ → List SavingsAggregationComponent → List ℕ
stale_of as_of maximum_age_seconds components =
    chain_ids (filter (is_stale as_of maximum_age_seconds) components)

-- A component goes by its chain: it is left out if the chain has a stale component.
abbrev pub included_of :
    List ℕ → List SavingsAggregationComponent → List SavingsAggregationComponent
included_of stale components = filter (λ component. not (has component.chain_id stale)) components

unfoldable pub aggregate_savings_components :
    List SavingsAggregationComponent → List ℕ → ℕ → ℕ → SavingsAggregate
aggregate_savings_components components expected as_of maximum_age_seconds =
    let stale = stale_of as_of maximum_age_seconds components in
    let included = included_of stale components in
    record {
      coverage = coverage_status (length included) (length expected);
      included = included;
      included_chain_ids = chain_ids included;
      missing_chain_ids = missing_chain_ids_of (chain_ids components) expected;
      stale_chain_ids = stale;
      usdp_supply_on_savings_chains = sum_of (λ c. c.usdp_total_supply) included;
      susdp_total_assets = total_assets included;
      susdp_total_supply = sum_of (λ c. c.susdp_total_supply) included;
      weighted_estimated_apy =
          (if total_assets included == 0
            then none
            else some (weighted_apy included / total_assets included));
      oldest_component_timestamp = minimum (timestamps included);
      newest_component_timestamp = maximum (timestamps included);
      maximum_component_age_seconds = age_of as_of (minimum (timestamps included));
    }

-- A row of the join of `savings_chain_snapshots` with the snapshots of its two assets.
pub record LatestSavingsRow : Type 0 where
  pub component : SavingsAggregationComponent
  pub created_at : ℕ

-- `order by scs.chain_id, scs.block_timestamp desc, scs.created_at desc`
abbrev pub row_before : LatestSavingsRow → LatestSavingsRow → Bool
row_before a b =
    ltb a.component.chain_id b.component.chain_id
    || (a.component.chain_id == b.component.chain_id
        && (ltb b.component.block_timestamp a.component.block_timestamp
            || (a.component.block_timestamp == b.component.block_timestamp
                && ltb b.created_at a.created_at)))

abbrev pub chain_of : SavingsAggregationComponent → ℕ
chain_of component = component.chain_id

abbrev pub latest_components : List LatestSavingsRow → List ℕ → List SavingsAggregationComponent
latest_components table expected = distinct_on chain_of [] (
    map (λ (row : LatestSavingsRow). row.component)
      (sort_by row_before (filter (λ row. has row.component.chain_id expected) table)))

-- A row of `global_savings_snapshot_components`.
pub record SnapshotComponentRow : Type 0 where
  pub global_snapshot_id : ℕ
  pub savings_snapshot_id : ℕ
  pub component_chain_id : ℕ

pub record GlobalSnapshotRow : Type 0 where
  pub id : ℕ
  pub as_of : ℕ
  pub expected_chain_count : ℕ
  pub included_chain_count : ℕ
  pub aggregate : SavingsAggregate

pub record GlobalSavings : Type 0 where
  pub snapshots : List GlobalSnapshotRow
  pub components : List SnapshotComponentRow

abbrev pub component_row : ℕ → SavingsAggregationComponent → SnapshotComponentRow
component_row global_snapshot_id component = record {
  global_snapshot_id = global_snapshot_id;
  savings_snapshot_id = component.snapshot_id;
  component_chain_id = component.chain_id;
}

-- One transaction: the snapshot under the id that the table gives it, and a row for each included
-- component. `as_of` is the time of the call.
unfoldable pub create_global_savings_snapshot :
    List LatestSavingsRow → List ℕ → ℕ → ℕ → ℕ → GlobalSavings → GlobalSavings × GlobalSnapshotRow
unfolding aggregate_savings_components
create_global_savings_snapshot table expected maximum_age_seconds as_of id stored =
    let aggregate =
      aggregate_savings_components (latest_components table expected) expected as_of
        maximum_age_seconds in
    let snapshot : GlobalSnapshotRow = record {
      id = id;
      as_of = as_of;
      expected_chain_count = length expected;
      included_chain_count = length aggregate.included;
      aggregate = aggregate;
    } in
    (
      record {
        snapshots = stored.snapshots ++ snapshot ∷ [];
        components = stored.components ++ map (component_row id) aggregate.included;
      },
      snapshot,
    )
