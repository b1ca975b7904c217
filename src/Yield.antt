-- ===== src/Yield.antt =====
-- src/analytics/multichain-yield.ts (`calculateSavingsYieldForRange`) and src/analytics/yield.ts
-- (`calculateYieldForRange`). The tables are arguments; amounts are the numbers that the numeric
-- columns hold. The two calculations run the same statements on their own tables: what they share
-- is written once here.
pub mod Stored
pub mod Additive
use parallel_usdp_hyperevm_i.Prelude.{
  first, ℕ, String, Bool, true, false, ◌&&◌, ◌||◌, ◌==◌, ltb, leb, List, [], ◌∷◌, ◌++◌, Option,
  none, some, filter, sum_of, sort_by, if◌then◌else◌, Result, ok, err, ◌>>=◌,
}
use text.Mathlib.Text.{◌==◌ as str_eq}
use parallel_usdp_hyperevm_i.Planner.{PlanError}
use parallel_usdp_hyperevm_i.Status.{CoverageRow, Coverage, verify_coverage}
use parallel_usdp_hyperevm_i.Savings.{SavingsError, calculate_native_ypo}
use parallel_usdp_hyperevm_i.Multichain.{SnapshotStatus, is_invalid}
use parallel_usdp_hyperevm_i.Intervals.{IntervalStatus}

-- A row of `savings_chain_snapshots`, or of `vault_snapshots`.
pub record SnapshotRow : Type 0 where
  pub id : ℕ
  pub chain_id : ℕ
  pub block_number : ℕ
  pub block_timestamp : ℕ
  pub susdp_pending_yield : ℕ
  pub snapshot_status : SnapshotStatus
  pub manifest_version : String
  pub created_at : ℕ

-- A row of `protocol_events`, with the interest of its payload.
pub record EventRow : Type 0 where
  pub event_chain_id : ℕ
  pub contract_role : String
  pub event_name : String
  pub event_block_number : ℕ
  pub interest : ℕ

-- A row of `savings_yield_aggregates`, or of `yield_aggregates` (which has no times and no scope).
pub record YieldRow : Type 0 where
  pub id : ℕ
  pub chain_id : ℕ
  pub start_snapshot_id : ℕ
  pub end_snapshot_id : ℕ
  pub from_block : ℕ
  pub to_block : ℕ
  pub window_start : ℕ
  pub window_end : ℕ
  pub accrued_interest : ℕ
  pub pending_yield_at_start : ℕ
  pub pending_yield_at_end : ℕ
  pub native_ypo : ℕ
  pub coverage_scope : String
  pub reconciliation_status : IntervalStatus
  pub manifest_version : String
  pub calculation_version : String
  pub created_at : ℕ

pub record Tables : Type 0 where
  pub coverage : List CoverageRow
  pub snapshots : List SnapshotRow
  pub events : List EventRow

pub record YieldOptions : Type 0 where
  pub chain_id : ℕ
  pub scope : String
  pub from_block : ℕ
  pub to_block : ℕ
  pub manifest_version : String
  pub calculation_version : String

pub data YieldError : Type 0 where
  bad_window : YieldError
  bad_coverage : PlanError → YieldError
  bad_ypo : SavingsError → YieldError

-- What is returned: the reasons of "unavailable", or the candidate with its id and values.
pub data YieldOutcome : Type 0 where
  coverage_incomplete : Coverage → YieldOutcome
  boundary_snapshot_missing : Coverage → Bool → Bool → YieldOutcome
  boundary_snapshot_invalid : Coverage → YieldOutcome
  yield_candidate : ℕ → Coverage → YieldRow → YieldOutcome

abbrev pub is_at : YieldOptions → ℕ → SnapshotRow → Bool
is_at options block row =
    row.chain_id == options.chain_id
    && row.block_number == block
    && str_eq row.manifest_version options.manifest_version

abbrev pub created_after : SnapshotRow → SnapshotRow → Bool
created_after a b = ltb b.created_at a.created_at

-- `byBlock.get(block)`: of the rows at a block, `distinct on (block_number)` keeps the one created
-- last.
abbrev pub snapshot_at : YieldOptions → List SnapshotRow → ℕ → Option SnapshotRow
snapshot_at options snapshots block =
    first (sort_by created_after (filter (is_at options block) snapshots))

-- `block_number > $2 and block_number <= $3`
abbrev pub is_accrued : ℕ → ℕ → ℕ → EventRow → Bool
is_accrued chain_id from_block to_block event =
    event.event_chain_id == chain_id
    && str_eq event.contract_role "susdp-savings"
    && str_eq event.event_name "Accrued"
    && ltb from_block event.event_block_number
    && leb event.event_block_number to_block

abbrev pub accrued_interest_of : ℕ → ℕ → ℕ → List EventRow → ℕ
accrued_interest_of chain_id from_block to_block events =
    sum_of (λ event. event.interest) (filter (is_accrued chain_id from_block to_block) events)

-- The columns of the table's unique index.
abbrev pub same_window : YieldRow → YieldRow → Bool
same_window a b =
    a.chain_id == b.chain_id
    && a.from_block == b.from_block
    && a.to_block == b.to_block
    && str_eq a.manifest_version b.manifest_version
    && str_eq a.calculation_version b.calculation_version

abbrev pub insert_unless : YieldRow → List YieldRow → Option YieldRow → ℕ × List YieldRow
insert_unless row table none = (row.id, table ++ row ∷ [])
insert_unless row table (some existing) = (existing.id, table)

-- `on conflict do nothing returning id`, and the query for the row that was there.
abbrev pub insert_yield : YieldRow → List YieldRow → ℕ × List YieldRow
insert_yield row table = insert_unless row table (first (filter (same_window row) table))

abbrev pub yield_row : YieldOptions → ℕ → ℕ → SnapshotRow → SnapshotRow → ℕ → ℕ → YieldRow
yield_row options id now start end interest native_ypo = record {
  id = id;
  chain_id = options.chain_id;
  start_snapshot_id = start.id;
  end_snapshot_id = end.id;
  from_block = options.from_block;
  to_block = options.to_block;
  window_start = start.block_timestamp;
  window_end = end.block_timestamp;
  accrued_interest = interest;
  pending_yield_at_start = start.susdp_pending_yield;
  pending_yield_at_end = end.susdp_pending_yield;
  native_ypo = native_ypo;
  coverage_scope = options.scope;
  reconciliation_status = IntervalStatus.candidate;
  manifest_version = options.manifest_version;
  calculation_version = options.calculation_version;
  created_at = now;
}

abbrev pub or_thrown :
    {A : Type 0} {E : Type 0} → (E → YieldError) → Result E A → Result YieldError A
or_thrown thrown (ok value) = ok value
or_thrown thrown (err error) = err (thrown error)

-- What is left once both boundary snapshots are there.
abbrev pub candidate_of :
    YieldOptions
    → Tables
    → Coverage
    → ℕ
    → ℕ
    → List YieldRow
    → SnapshotRow
    → SnapshotRow
    → Result YieldError (YieldOutcome × List YieldRow)
candidate_of options tables coverage id now stored start end =
    let interest =
      accrued_interest_of options.chain_id options.from_block options.to_block tables.events in
    or_thrown bad_ypo
      (calculate_native_ypo interest start.susdp_pending_yield end.susdp_pending_yield)
    >>= λ native_ypo.
        let row = yield_row options id now start end interest native_ypo in
        let (stored_id, after) = insert_yield row stored in
        ok (yield_candidate stored_id coverage row, after)

abbrev pub check_boundaries :
    YieldOptions
    → Tables
    → Coverage
    → ℕ
    → ℕ
    → List YieldRow
    → Option SnapshotRow
    → Option SnapshotRow
    → Result YieldError (YieldOutcome × List YieldRow)
check_boundaries options tables coverage id now stored (some start) (some end) =
    if is_invalid start.snapshot_status || is_invalid end.snapshot_status
    then ok (boundary_snapshot_invalid coverage, stored)
    else candidate_of options tables coverage id now stored start end
check_boundaries options tables coverage id now stored none none =
    ok (boundary_snapshot_missing coverage true true, stored)
check_boundaries options tables coverage id now stored none (some _) =
    ok (boundary_snapshot_missing coverage true false, stored)
check_boundaries options tables coverage id now stored (some _) none =
    ok (boundary_snapshot_missing coverage false true, stored)

-- `id` and `now` are what the database gives a new row.
unfoldable pub calculate_savings_yield_for_range :
    YieldOptions → Tables → ℕ → ℕ → List YieldRow → Result YieldError (YieldOutcome × List YieldRow)
unfolding verify_coverage calculate_native_ypo
calculate_savings_yield_for_range options tables id now stored =
    if leb options.to_block options.from_block
    then err bad_window
    else or_thrown bad_coverage (
        verify_coverage tables.coverage options.scope options.from_block options.to_block
          options.chain_id)
      >>= λ coverage.
          if coverage.complete
          then check_boundaries options tables coverage id now stored
              (snapshot_at options tables.snapshots options.from_block)
              (snapshot_at options tables.snapshots options.to_block)
          else ok (coverage_incomplete coverage, stored)

abbrev pub hyperevm_chain_id : ℕ
hyperevm_chain_id = 999

-- The same on the tables of the chain HyperEVM, whose id is written into the queries.
unfoldable pub calculate_yield_for_range :
    YieldOptions → Tables → ℕ → ℕ → List YieldRow → Result YieldError (YieldOutcome × List YieldRow)
unfolding calculate_savings_yield_for_range
calculate_yield_for_range options tables id now stored =
    calculate_savings_yield_for_range (record options { chain_id = hyperevm_chain_id }) tables id
      now stored
