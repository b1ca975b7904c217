-- ===== src/Tests/Global.antt =====
-- Global savings snapshots, at a table of two chains.
use parallel_usdp_hyperevm_i.Prelude.{
  not, map, any, filter, distinct_on, sort_by, some, ℕ, ◌≡◌, refl, List, [], ◌∷◌, true, arith,
}
use parallel_usdp_hyperevm_i.Multichain.{
  SavingsAggregationComponent, LatestSavingsRow, GlobalSavings, SnapshotStatus,
  create_global_savings_snapshot, aggregate_savings_components,
}
use parallel_usdp_hyperevm_i.Yield.{YieldRow}
use parallel_usdp_hyperevm_i.Intervals.{IntervalStatus}
use parallel_usdp_hyperevm_i.Multichain.Average.{
  AverageIsBetween, aggregate_savings_components-between,
}
use parallel_usdp_hyperevm_i.Multichain.Complete.{
  is_fresh_of, is_row_of, create_global_savings_snapshot-complete,
}
use parallel_usdp_hyperevm_i.Multichain.Yields.{
  global_yield_row, GlobalYields, create_global_savings_yield, of_window, is_part_of,
  yield_component_row,
}
use parallel_usdp_hyperevm_i.Multichain.Yields.Replaced.{
  HasOne, create_global_savings_yield-replaces,
}

abbrev component : ℕ → ℕ → ℕ → ℕ → SavingsAggregationComponent
component id chain assets apy = record {
  snapshot_id = id;
  chain_id = chain;
  block_timestamp = 50000;
  snapshot_status = SnapshotStatus.candidate;
  usdp_total_supply = 500;
  susdp_total_supply = 90;
  susdp_total_assets = assets;
  susdp_estimated_apy = apy;
}

abbrev pair : List SavingsAggregationComponent
pair = component 1 1 100 40 ∷ component 2 999 300 80 ∷ []

abbrev two_chains : List ℕ
two_chains = 1 ∷ 999 ∷ []

weighted : (aggregate_savings_components pair two_chains 60000 60).weighted_estimated_apy ≡ some 70
unfolding aggregate_savings_components
weighted = refl

aggregate_savings_components-between_example :
    (let aggregate = aggregate_savings_components pair two_chains 60000 60 in
      AverageIsBetween 40 80 aggregate.susdp_total_assets aggregate.weighted_estimated_apy)
aggregate_savings_components-between_example =
    aggregate_savings_components-between pair two_chains 60000 60 40 80
      ((omega arith, omega arith), ((omega arith, omega arith), tt))

abbrev old_row : LatestSavingsRow
old_row = record {
  component = record (component 7 1 9 9) { block_timestamp = 100 };
  created_at = 1;
}

abbrev table : List LatestSavingsRow
table =
    old_row
    ∷ record { component = component 2 999 300 80; created_at = 3 }
    ∷ record { component = component 1 1 100 40; created_at = 2 }
    ∷ []

abbrev nothing : GlobalSavings
nothing = record { snapshots = []; components = [] }

create_global_savings_snapshot-complete_example :
    (let (after, snapshot) = create_global_savings_snapshot table two_chains 60 60000 5 nothing in
      (any (is_fresh_of 60000 60 999) snapshot.aggregate.included ≡ true)
      × (any (is_row_of 60000 60 5 999) after.components ≡ true))
unfolding create_global_savings_snapshot sort_by distinct_on
create_global_savings_snapshot-complete_example =
    create_global_savings_snapshot-complete 60000 60 table two_chains 5 nothing refl 999 refl

abbrev yield_row_of : ℕ → ℕ → ℕ → YieldRow
yield_row_of id chain ypo = record {
  id = id;
  chain_id = chain;
  start_snapshot_id = 1;
  end_snapshot_id = 2;
  from_block = 10;
  to_block = 20;
  window_start = 1000;
  window_end = 600000;
  accrued_interest = ypo;
  pending_yield_at_start = 0;
  pending_yield_at_end = 0;
  native_ypo = ypo;
  coverage_scope = "s";
  reconciliation_status = IntervalStatus.verified;
  manifest_version = "m";
  calculation_version = "c";
  created_at = id;
}

abbrev yields : List YieldRow
yields = yield_row_of 3 1 7 ∷ yield_row_of 4 999 8 ∷ []

-- The state after an earlier run, which had only the first chain.
abbrev earlier : GlobalYields
earlier =
    (create_global_savings_yield (yield_row_of 2 1 6 ∷ []) two_chains 0 600000 5
      (record { aggregates = []; components = [] })).2

both_chains : (create_global_savings_yield yields two_chains 0 600000 6 earlier).1.native_ypo ≡ 15
unfolding create_global_savings_yield sort_by distinct_on
both_chains = refl

create_global_savings_yield-replaces_example :
    (let (id, aggregate, after) =
        create_global_savings_yield yields two_chains 0 600000 6 earlier in
      HasOne (global_yield_row 6 0 600000 two_chains aggregate) id after.aggregates
      × (filter (λ row. not (of_window 0 600000 row)) after.aggregates
          ≡ filter (λ row. not (of_window 0 600000 row)) earlier.aggregates)
      × (filter (is_part_of id) after.components ≡ map (yield_component_row id) aggregate.included)
      × (filter (λ row. not (is_part_of id row)) after.components
          ≡ filter (λ row. not (is_part_of id row)) earlier.components))
unfolding create_global_savings_yield
create_global_savings_yield-replaces_example =
    create_global_savings_yield-replaces yields two_chains 0 600000 6 earlier (omega arith)
