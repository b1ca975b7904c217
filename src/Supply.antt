-- ===== src/Supply.antt =====
-- src/analytics/usdp-supply.ts: `aggregateUsdpSupplyComponents` and what `persistGlobalSnapshot`
-- stores. Times are milliseconds; a supply is the number that the numeric column holds.
pub mod Accounted
pub mod Component
pub mod Capture
pub mod Rpc
use parallel_usdp_hyperevm_i.Prelude.{
  ℕ, ◌-◌, ◌+◌, ◌/◌, Bool, not, ◌&&◌, ◌||◌, ltb, List, [], ◌∷◌, ◌++◌, Option, none, some, length,
  map, filter, sum_of, has, unique, sort_by, if◌then◌else◌,
}
use parallel_usdp_hyperevm_i.Multichain.{
  CoverageStatus, coverage_status, age_seconds, age_of, minimum, maximum, missing_chain_ids_of,
}

-- The fields that the aggregation reads.
pub record UsdpSupplyComponent : Type 0 where
  pub asset_snapshot_id : ℕ
  pub chain_id : ℕ
  pub block_timestamp : ℕ
  pub total_supply : ℕ
  pub metadata_verified : Bool

pub record SupplyOptions : Type 0 where
  pub components : List UsdpSupplyComponent
  pub expected_chain_ids : List ℕ
  pub failed_chain_ids : List ℕ
  pub as_of : ℕ
  pub maximum_age_seconds : ℕ
  pub alignment_maximum_skew_seconds : ℕ

pub record SupplyAggregate : Type 0 where
  pub coverage : CoverageStatus
  pub included : List UsdpSupplyComponent
  pub included_chain_ids : List ℕ
  pub missing_chain_ids : List ℕ
  pub stale_chain_ids : List ℕ
  pub failed_chain_ids : List ℕ
  pub candidate_total_supply : ℕ
  pub oldest_component_timestamp : Option ℕ
  pub newest_component_timestamp : Option ℕ
  pub maximum_component_age_seconds : Option ℕ
  pub component_skew_seconds : Option ℕ

-- One of the differences is zero: `Math.abs(asOf - timestamp)`.
abbrev pub distance : ℕ → ℕ → ℕ
distance a b = (a - b) + (b - a)

abbrev pub is_stale : SupplyOptions → UsdpSupplyComponent → Bool
is_stale options component =
    ltb options.maximum_age_seconds (age_seconds options.as_of component.block_timestamp)
    || ltb options.alignment_maximum_skew_seconds
        (distance options.as_of component.block_timestamp / 1000)

abbrev pub supply_chain_of : UsdpSupplyComponent → ℕ
supply_chain_of component = component.chain_id

abbrev pub ascending : List ℕ → List ℕ
ascending ids = sort_by ltb ids

abbrev pub stale_ids : SupplyOptions → List ℕ
stale_ids options = map supply_chain_of (filter (is_stale options) options.components)

abbrev pub all_failed_ids : SupplyOptions → List ℕ
all_failed_ids options = ascending (
    unique (
      options.failed_chain_ids
      ++ map supply_chain_of (filter (λ c. not c.metadata_verified) options.components)))

abbrev pub is_included : SupplyOptions → UsdpSupplyComponent → Bool
is_included options component =
    component.metadata_verified && not (has component.chain_id (stale_ids options))

abbrev pub skew_seconds : Option ℕ → Option ℕ → Option ℕ
skew_seconds (some oldest) (some newest) = some ((newest - oldest) / 1000)
skew_seconds (some _) none = none
skew_seconds none newest = none

unfoldable pub aggregate_usdp_supply_components : SupplyOptions → SupplyAggregate
aggregate_usdp_supply_components options =
    let included = filter (is_included options) options.components in
    let timestamps = map (λ (c : UsdpSupplyComponent). c.block_timestamp) included in
    record {
      coverage = coverage_status (length included) (length options.expected_chain_ids);
      included = included;
      included_chain_ids = ascending (map supply_chain_of included);
      missing_chain_ids = ascending (
          missing_chain_ids_of (map supply_chain_of options.components ++ all_failed_ids options)
            options.expected_chain_ids);
      stale_chain_ids = ascending (unique (stale_ids options));
      failed_chain_ids = all_failed_ids options;
      candidate_total_supply = sum_of (λ c. c.total_supply) included;
      oldest_component_timestamp = minimum timestamps;
      newest_component_timestamp = maximum timestamps;
      maximum_component_age_seconds = age_of options.as_of (minimum timestamps);
      component_skew_seconds = skew_seconds (minimum timestamps) (maximum timestamps);
    }

pub data ExclusionReason : Type 0 where
  metadata_invalid stale_or_misaligned excluded : ExclusionReason

-- A row of `global_usdp_supply_snapshot_components`.
pub record SupplyComponentRow : Type 0 where
  pub global_snapshot_id : ℕ
  pub row_snapshot_id : ℕ
  pub row_chain_id : ℕ
  pub included : Bool
  pub exclusion_reason : Option ExclusionReason

pub record SupplySnapshotRow : Type 0 where
  pub id : ℕ
  pub as_of : ℕ
  pub expected_chain_count : ℕ
  pub included_chain_count : ℕ
  pub alignment_maximum_skew_seconds : ℕ
  pub aggregate : SupplyAggregate

pub record SupplyTables : Type 0 where
  pub snapshots : List SupplySnapshotRow
  pub components : List SupplyComponentRow

-- `component.metadataVerified` and the two membership tests, in the order of the conditions.
abbrev pub exclusion_reason_if : Bool → Bool → Bool → Option ExclusionReason
exclusion_reason_if included verified stale =
    if included
    then none
    else if not verified
    then some metadata_invalid
    else if stale
    then some stale_or_misaligned
    else some excluded

abbrev pub exclusion_reason_of : SupplyAggregate → UsdpSupplyComponent → Option ExclusionReason
exclusion_reason_of aggregate component =
    exclusion_reason_if (has component.chain_id aggregate.included_chain_ids)
      component.metadata_verified (has component.chain_id aggregate.stale_chain_ids)

abbrev pub supply_row : ℕ → SupplyAggregate → UsdpSupplyComponent → SupplyComponentRow
supply_row id aggregate component = record {
  global_snapshot_id = id;
  row_snapshot_id = component.asset_snapshot_id;
  row_chain_id = component.chain_id;
  included = has component.chain_id aggregate.included_chain_ids;
  exclusion_reason = exclusion_reason_of aggregate component;
}

-- One transaction; `id` is the one that the table gives. The accounting status is always
-- "candidate", and the verified supply null.
unfoldable pub persist_global_snapshot :
    SupplyOptions → ℕ → SupplyTables → SupplyAggregate × SupplyTables
unfolding aggregate_usdp_supply_components
persist_global_snapshot options id tables =
    let aggregate = aggregate_usdp_supply_components options in
    let snapshot : SupplySnapshotRow = record {
      id = id;
      as_of = options.as_of;
      expected_chain_count = length options.expected_chain_ids;
      included_chain_count = length aggregate.included;
      alignment_maximum_skew_seconds = options.alignment_maximum_skew_seconds;
      aggregate = aggregate;
    } in
    (
      aggregate,
      record {
        snapshots = tables.snapshots ++ snapshot ∷ [];
        components = tables.components ++ map (supply_row id aggregate) options.components;
      },
    )

-- src/analytics/usdp-supply-queries.ts: `sumIncludedSupplyOutsideChains`
abbrev pub is_outside_savings : List ℕ → UsdpSupplyComponent × Bool → Bool
is_outside_savings savings_chain_ids (component, included) =
    included && not (has component.chain_id savings_chain_ids)

abbrev pub supply_of : UsdpSupplyComponent × Bool → ℕ
supply_of (component, included) = component.total_supply

unfoldable pub sum_included_supply_outside_chains : List (UsdpSupplyComponent × Bool) → List ℕ → ℕ
sum_included_supply_outside_chains components savings_chain_ids =
    sum_of supply_of (filter (is_outside_savings savings_chain_ids) components)
