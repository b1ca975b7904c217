-- ===== src/Tests/Saving.antt =====
-- Savings: growth over a year, a window with a deposit and an accrual, and its record.
use parallel_usdp_hyperevm_i.Prelude.{
  false, ◌==◌, ◌+◌, List, arith, ℕ, [], ◌∷◌, refl, ◌≡◌, ◌≤◌, some, ok, true,
}
use parallel_usdp_hyperevm_i.Prelude.Int.{pos}
use parallel_usdp_hyperevm_i.Savings.{compute_updated_assets}
use parallel_usdp_hyperevm_i.Savings.Growth.{compute_updated_assets-le}
use parallel_usdp_hyperevm_i.Savings.Segments.{
  SegmentAction, SavingsRateSegmentEvent, SegmentWindow, SegmentResult, accrued, deposit, withdraw,
  integrate_segmented_rate_window,
}
use parallel_usdp_hyperevm_i.Savings.Segments.Balance.{
  IsAccounted, integrate_segmented_rate_window-IsAccounted,
}
use parallel_usdp_hyperevm_i.Savings.Segments.Steps.{interest_of, total}
use parallel_usdp_hyperevm_i.Savings.Reconcile.{
  segmented_events, withdraw_event, accrued_event, deposit_event, SavingsEventName, check_segments,
  ReconciliationInput, ConstantRateCheck, reconcile_constant_rate_window, checked,
  YieldReconciliationRow, SavingsEventRow,
}
use parallel_usdp_hyperevm_i.Savings.Reconcile.Exact.{
  IsExact, reconcile_constant_rate_window-IsExact,
}
use parallel_usdp_hyperevm_i.Savings.Resolve.{
  reconcile_savings_yield, YieldStatusRow, candidate_status, verified_status, segmented_rate,
}
use parallel_usdp_hyperevm_i.Savings.Recorded.{
  is_verified, status_of, reconcile_savings_yield-segmented, reconcile_savings_yield-Records,
}

abbrev rate : ℕ
rate = 1000000000000000000000000

after_ten : compute_updated_assets 1000000 rate 10 ≡ 1010045
unfolding compute_updated_assets
after_ten = refl

compute_updated_assets-le_example :
    (1000000 ≤ compute_updated_assets 1000000 rate 10)
    × (compute_updated_assets 1000000 rate 10 ≤ compute_updated_assets 1000000 rate 20)
compute_updated_assets-le_example = compute_updated_assets-le 1000000 rate 10 20 (omega arith)

abbrev event : ℕ → ℕ → SegmentAction → SavingsRateSegmentEvent
event timestamp log_index action = record {
  timestamp = timestamp;
  log_index = log_index;
  action = action;
}

abbrev window : SegmentWindow
window = record {
  actual_assets_at_start = 1000000;
  total_assets_at_start = 1000000;
  rate_at_start = rate;
  last_update_at_start = 100;
  block_timestamp_at_start = 100;
  block_timestamp_at_end = 110;
}

abbrev events : List SavingsRateSegmentEvent
events = event 110 7 (withdraw 45) ∷ event 110 2 (accrued 10045) ∷ event 110 5 (deposit 500) ∷ []

abbrev integrated : SegmentResult
integrated = record {
  integrated_ypo = pos 10045;
  predicted_accrued_interest = pos 10045;
  emitted_accrued_interest = 10045;
  accrued_variance = pos 0;
  predicted_pending_yield_at_end = pos 0;
  predicted_total_assets_at_end = 1010500;
  actual_assets_at_end = 1010500;
  rate_at_end = rate;
  last_update_at_end = 110;
}

integrates : integrate_segmented_rate_window window events ≡ ok integrated
unfolding integrate_segmented_rate_window parallel_usdp_hyperevm_i.Prelude.sort_by
    parallel_usdp_hyperevm_i.Prelude.Int.◌+ℤ◌ parallel_usdp_hyperevm_i.Prelude.Int.◌-ℤ◌
integrates = refl

integrate_segmented_rate_window-IsAccounted_example : IsAccounted window events integrated
integrate_segmented_rate_window-IsAccounted_example =
    integrate_segmented_rate_window-IsAccounted window events integrated integrates

abbrev still : ReconciliationInput
still = record {
  actual_assets_at_start = 1000000;
  actual_assets_at_end = 1000000;
  total_assets_at_start = 1000000;
  total_assets_at_end = 1010045;
  rate_at_start = rate;
  rate_at_end = rate;
  last_update_at_start = 100;
  last_update_at_end = 100;
  block_timestamp_at_start = 100;
  block_timestamp_at_end = 110;
  accrued_interest = 0;
  native_ypo = pos 10045;
}

abbrev still_check : ConstantRateCheck
still_check = record {
  verified = true;
  predicted_total_assets_at_start = 1000000;
  predicted_total_assets_at_end = 1010045;
  independently_integrated_ypo = pos 10045;
  total_assets_start_delta = pos 0;
  total_assets_end_delta = pos 0;
  ypo_delta = pos 0;
}

still-checked : reconcile_constant_rate_window still ≡ checked still_check
unfolding reconcile_constant_rate_window parallel_usdp_hyperevm_i.Prelude.Int.◌-ℤ◌
still-checked = refl

reconcile_constant_rate_window-IsExact_example : IsExact still
reconcile_constant_rate_window-IsExact_example =
    reconcile_constant_rate_window-IsExact still still_check still-checked refl

abbrev interval : YieldReconciliationRow
interval = record {
  id = 4;
  from_block = 50;
  to_block = 60;
  native_ypo = pos 10045;
  accrued_interest = 10045;
  start_total_assets = 1000000;
  start_actual_assets = 1000000;
  start_rate = rate;
  start_last_update = 100;
  start_timestamp = 100000;
  end_total_assets = 1010500;
  end_actual_assets = 1010500;
  end_rate = rate;
  end_last_update = 110;
  end_timestamp = 110999;
}

abbrev savings_event : ℕ → ℕ → SavingsEventName → ℕ → SavingsEventRow
savings_event block log_index name amount = record {
  block_number = block;
  block_timestamp = 110000;
  log_index = log_index;
  event_name = name;
  payload = some amount;
}

abbrev table : List SavingsEventRow
table =
    savings_event 50 1 deposit_event 9
    ∷ savings_event 55 2 accrued_event 10045
    ∷ savings_event 55 5 deposit_event 500
    ∷ savings_event 55 7 withdraw_event 45
    ∷ savings_event 61 1 withdraw_event 8
    ∷ []

abbrev statuses : List YieldStatusRow
statuses =
    record { id = 3; reconciliation_status = candidate_status }
    ∷ record { id = 4; reconciliation_status = candidate_status }
    ∷ []

abbrev recorded : List YieldStatusRow
recorded =
    record { id = 3; reconciliation_status = candidate_status }
    ∷ record { id = 4; reconciliation_status = verified_status }
    ∷ []

resolves :
    reconcile_savings_yield (some interval) table statuses
    ≡ ok (segmented_rate (check_segments interval integrated), recorded)
unfolding reconcile_savings_yield parallel_usdp_hyperevm_i.Prelude.sort_by
    parallel_usdp_hyperevm_i.Prelude.Int.◌+ℤ◌ parallel_usdp_hyperevm_i.Prelude.Int.◌-ℤ◌
resolves = refl

reconcile_savings_yield-segmented_example :
    (1010500 + 45 ≡ 1000000 + 500 + 10045)
    × (10045 ≡ total interest_of (segmented_events interval table))
reconcile_savings_yield-segmented_example =
    reconcile_savings_yield-segmented interval table statuses recorded
      (check_segments interval integrated) resolves refl

reconcile_savings_yield-Records_example :
    ((n : ℕ) → (n == 4) ≡ false → status_of n recorded ≡ status_of n statuses)
    × (status_of 4 recorded ≡ some verified_status
        → is_verified (segmented_rate (check_segments interval integrated)) ≡ true)
reconcile_savings_yield-Records_example =
    reconcile_savings_yield-Records interval table statuses recorded
      (segmented_rate (check_segments interval integrated)) resolves
