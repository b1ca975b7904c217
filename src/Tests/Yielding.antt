-- ===== src/Tests/Yielding.antt =====
-- Yields of block ranges, and the reuse of coverage under another scope.
use parallel_usdp_hyperevm_i.Prelude.{
  any, ◌++◌, ◌≤◌, ◌*◌, err, sort_by, ℕ, String, ◌≡◌, ◌≢◌, ◌+◌, refl, List, [], ◌∷◌, true, ok, arith,
}
use parallel_usdp_hyperevm_i.Status.{CoverageRow, Coverage}
use parallel_usdp_hyperevm_i.Status.Complete.{row_covers}
use parallel_usdp_hyperevm_i.Multichain.{SnapshotStatus}
use parallel_usdp_hyperevm_i.History.{
  reuse_savings_history_coverage, reused_incomplete, copy_coverage,
}
use parallel_usdp_hyperevm_i.History.Reused.{reuse_savings_history_coverage_complete}
use parallel_usdp_hyperevm_i.Intervals.{IntervalStatus}
use parallel_usdp_hyperevm_i.Yield.{
  SnapshotRow, EventRow, YieldRow, Tables, YieldOptions, calculate_savings_yield_for_range,
  yield_candidate,
}
use parallel_usdp_hyperevm_i.Yield.Stored.{IsInserted, calculate_savings_yield_for_range-stored}
use parallel_usdp_hyperevm_i.Yield.Additive.{window, calculate_savings_yield_for_range-additive}

abbrev snapshot : ℕ → ℕ → ℕ → SnapshotRow
snapshot id block pending = record {
  id = id;
  chain_id = 1;
  block_number = block;
  block_timestamp = block * 1000;
  susdp_pending_yield = pending;
  snapshot_status = SnapshotStatus.candidate;
  manifest_version = "m";
  created_at = id;
}

abbrev accrued : ℕ → ℕ → EventRow
accrued block interest = record {
  event_chain_id = 1;
  contract_role = "susdp-savings";
  event_name = "Accrued";
  event_block_number = block;
  interest = interest;
}

abbrev tables : Tables
tables = record {
  coverage = record { chain_id = 1; scope = "s"; from_block = 0; to_block = 50 } ∷ [];
  snapshots = snapshot 1 10 5 ∷ snapshot 2 20 3 ∷ snapshot 3 30 9 ∷ [];
  events = accrued 10 100 ∷ accrued 15 20 ∷ accrued 20 4 ∷ accrued 30 7 ∷ [];
}

abbrev options : YieldOptions
options = record {
  chain_id = 1;
  scope = "s";
  from_block = 0;
  to_block = 0;
  manifest_version = "m";
  calculation_version = "c";
}

abbrev expected : ℕ → ℕ → ℕ → ℕ → ℕ → ℕ → ℕ → ℕ → YieldRow
expected start end from_block to_block interest before behind ypo = record {
  id = 8;
  chain_id = 1;
  start_snapshot_id = start;
  end_snapshot_id = end;
  from_block = from_block;
  to_block = to_block;
  window_start = from_block * 1000;
  window_end = to_block * 1000;
  accrued_interest = interest;
  pending_yield_at_start = before;
  pending_yield_at_end = behind;
  native_ypo = ypo;
  coverage_scope = "s";
  reconciliation_status = IntervalStatus.candidate;
  manifest_version = "m";
  calculation_version = "c";
  created_at = 70;
}

abbrev left : YieldRow
left = expected 1 2 10 20 24 5 3 22

abbrev right : YieldRow
right = expected 2 3 20 30 7 3 9 13

abbrev whole : YieldRow
whole = expected 1 3 10 30 31 5 9 35

abbrev found : Coverage
found = record { complete = true; range_rows = 1; gaps = [] }

left_run :
    calculate_savings_yield_for_range (window options 10 20) tables 8 70 []
    ≡ ok (yield_candidate 8 found left, left ∷ [])
unfolding calculate_savings_yield_for_range sort_by parallel_usdp_hyperevm_i.Prelude.Int.◌-ℤ◌
left_run = refl

right_run :
    calculate_savings_yield_for_range (window options 20 30) tables 8 70 []
    ≡ ok (yield_candidate 8 found right, right ∷ [])
unfolding calculate_savings_yield_for_range sort_by parallel_usdp_hyperevm_i.Prelude.Int.◌-ℤ◌
right_run = refl

whole_run :
    calculate_savings_yield_for_range (window options 10 30) tables 8 70 []
    ≡ ok (yield_candidate 8 found whole, whole ∷ [])
unfolding calculate_savings_yield_for_range sort_by parallel_usdp_hyperevm_i.Prelude.Int.◌-ℤ◌
whole_run = refl

calculate_savings_yield_for_range-stored_example :
    ((b : ℕ) → 10 ≤ b → b ≤ 20 → any (row_covers 1 "s" b) tables.coverage ≡ true)
    × IsInserted left [] 8 (left ∷ [])
calculate_savings_yield_for_range-stored_example =
    calculate_savings_yield_for_range-stored (window options 10 20) tables 8 70 [] 8 found left
      (left ∷ []) (omega arith, tt) left_run

calculate_savings_yield_for_range-additive_example :
    left.native_ypo + right.native_ypo ≡ whole.native_ypo
calculate_savings_yield_for_range-additive_example =
    calculate_savings_yield_for_range-additive options tables 10 20 30 8 70 8 70 8 70 [] [] [] 8 8 8
      found found found left right whole (left ∷ []) (right ∷ []) (whole ∷ []) left_run right_run
      whole_run

-- Two rows, the second of which begins inside the first.
abbrev lifetime : List CoverageRow
lifetime =
    record { chain_id = 1; scope = "lifetime"; from_block = 0; to_block = 15 }
    ∷ record { chain_id = 1; scope = "lifetime"; from_block = 12; to_block = 40 }
    ∷ []

reuse_savings_history_coverage_complete_example :
    reuse_savings_history_coverage "lifetime" "window" 10 20 1 lifetime ≢ err reused_incomplete
reuse_savings_history_coverage_complete_example =
    reuse_savings_history_coverage_complete "lifetime" "window" 10 20 1 lifetime
      (omega arith, (omega arith, tt))

copied :
    copy_coverage "lifetime" "window" 10 20 1 lifetime
    ≡ lifetime
      ++ record { chain_id = 1; scope = "window"; from_block = 10; to_block = 15 }
        ∷ record { chain_id = 1; scope = "window"; from_block = 12; to_block = 20 }
        ∷ []
unfolding copy_coverage
copied = refl
