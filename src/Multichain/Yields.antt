-- ===== src/Multichain/Yields.antt =====
-- src/analytics/multichain-yield.ts: `aggregateSavingsYieldComponents` and what
-- `createGlobalSavingsYield` stores. Times are milliseconds.
pub mod Replaced
use parallel_usdp_hyperevm_i.Prelude.{
  ℕ, ◌+◌, String, Bool, not, ◌&&◌, ◌||◌, ◌==◌, ltb, leb, List, [], ◌∷◌, ◌++◌, Option, none, some,
  any, length, map, filter, sum_of, has, distinct_on, sort_by, if◌then◌else◌,
}
use parallel_usdp_hyperevm_i.Multichain.{CoverageStatus, coverage_status, missing_chain_ids_of}
use parallel_usdp_hyperevm_i.Intervals.{is_verified_status}
use parallel_usdp_hyperevm_i.Yield.{YieldRow}

pub record YieldAggregate : Type 0 where
  pub coverage : CoverageStatus
  pub included : List YieldRow
  pub included_chain_ids : List ℕ
  pub missing_chain_ids : List ℕ
  pub unreconciled_chain_ids : List ℕ
  pub native_ypo : ℕ

abbrev pub yield_chain_of : YieldRow → ℕ
yield_chain_of row = row.chain_id

abbrev pub is_verified : YieldRow → Bool
is_verified row = is_verified_status row.reconciliation_status

unfoldable pub aggregate_savings_yield_components : List YieldRow → List ℕ → YieldAggregate
aggregate_savings_yield_components components expected =
    let included = filter is_verified components in
    record {
      coverage = coverage_status (length included) (length expected);
      included = included;
      included_chain_ids = map yield_chain_of included;
      missing_chain_ids = missing_chain_ids_of (map yield_chain_of components) expected;
      unreconciled_chain_ids =
          map yield_chain_of (filter (λ component. not (is_verified component)) components);
      native_ypo = sum_of (λ component. component.native_ypo) included;
    }

-- `interval '5 minutes'`
abbrev pub alignment : ℕ
alignment = 300000

abbrev pub is_near : ℕ → ℕ → Bool
is_near target time = leb target (time + alignment) && leb time (target + alignment)

abbrev pub in_window : List ℕ → ℕ → ℕ → YieldRow → Bool
in_window expected window_start window_end row =
    has row.chain_id expected
    && is_near window_start row.window_start
    && is_near window_end row.window_end

-- `order by chain_id, created_at desc`
abbrev pub yield_before : YieldRow → YieldRow → Bool
yield_before a b =
    ltb a.chain_id b.chain_id || (a.chain_id == b.chain_id && ltb b.created_at a.created_at)

abbrev pub latest_yields : List YieldRow → List ℕ → ℕ → ℕ → List YieldRow
latest_yields table expected window_start window_end =
    distinct_on yield_chain_of []
      (sort_by yield_before (filter (in_window expected window_start window_end) table))

-- A row of `global_savings_yield_aggregates`; all are of one calculation version.
pub record GlobalYieldRow : Type 0 where
  pub id : ℕ
  pub global_start : ℕ
  pub global_end : ℕ
  pub expected_chain_count : ℕ
  pub included_chain_count : ℕ
  pub aggregate : YieldAggregate

-- A row of `global_savings_yield_components`.
pub record YieldComponentRow : Type 0 where
  pub global_yield_id : ℕ
  pub savings_yield_id : ℕ
  pub component_chain_id : ℕ

pub record GlobalYields : Type 0 where
  pub aggregates : List GlobalYieldRow
  pub components : List YieldComponentRow

abbrev pub of_window : ℕ → ℕ → GlobalYieldRow → Bool
of_window window_start window_end row =
    row.global_start == window_start && row.global_end == window_end

-- `on conflict … do update`: the counts of the row that was there change, its id stays.
abbrev pub updated : GlobalYieldRow → GlobalYieldRow → GlobalYieldRow
updated row existing = record existing {
  included_chain_count = row.included_chain_count;
  aggregate = row.aggregate;
}

-- The id of the row, and the table after the statement.
unfoldable pub upsert_yield : GlobalYieldRow → List GlobalYieldRow → ℕ × List GlobalYieldRow
upsert_yield row [] = (row.id, row ∷ [])
upsert_yield row (existing ∷ rest) =
    let (id, after) = upsert_yield row rest in
    if of_window row.global_start row.global_end existing
    then (existing.id, updated row existing ∷ rest)
    else (id, existing ∷ after)

abbrev pub yield_component_row : ℕ → YieldRow → YieldComponentRow
yield_component_row id component = record {
  global_yield_id = id;
  savings_yield_id = component.id;
  component_chain_id = component.chain_id;
}

abbrev pub is_part_of : ℕ → YieldComponentRow → Bool
is_part_of id row = row.global_yield_id == id

-- `delete … where global_yield_id = $1`, then one insert for each included component.
abbrev pub replace_components : ℕ → List YieldRow → List YieldComponentRow → List YieldComponentRow
replace_components id included table =
    filter (λ row. not (is_part_of id row)) table ++ map (yield_component_row id) included

abbrev pub global_yield_row : ℕ → ℕ → ℕ → List ℕ → YieldAggregate → GlobalYieldRow
global_yield_row id window_start window_end expected aggregate = record {
  id = id;
  global_start = window_start;
  global_end = window_end;
  expected_chain_count = length expected;
  included_chain_count = length aggregate.included;
  aggregate = aggregate;
}

-- One transaction. `id` is the one that a new row gets.
unfoldable pub create_global_savings_yield :
    List YieldRow → List ℕ → ℕ → ℕ → ℕ → GlobalYields → ℕ × YieldAggregate × GlobalYields
unfolding aggregate_savings_yield_components upsert_yield
create_global_savings_yield table expected window_start window_end id stored =
    let aggregate =
      aggregate_savings_yield_components (latest_yields table expected window_start window_end)
        expected in
    let (global_id, aggregates) =
      upsert_yield (global_yield_row id window_start window_end expected aggregate)
        stored.aggregates in
    (
      global_id,
      aggregate,
      record {
        aggregates = aggregates;
        components = replace_components global_id aggregate.included stored.components;
      },
    )
