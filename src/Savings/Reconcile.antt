-- ===== src/Savings/Reconcile.antt =====
-- src/analytics/yield-reconciliation.ts: `reconcileConstantRateWindow` and `reconcileSavingsYield`.
-- The row of the interval, the savings events of its chain in the order of blocks and logs, and the
-- statuses of all intervals are what the database holds.
pub mod Exact
use parallel_usdp_hyperevm_i.Prelude.{
  ℕ, ◌/◌, Bool, true, false, ◌&&◌, ◌||◌, ◌==◌, ltb, leb, List, [], ◌∷◌, Option, none, some,
  if◌then◌else◌, Result, ok, err, ◌>>=◌, map, filter,
}
use parallel_usdp_hyperevm_i.Prelude.Int.{ℤ, pos, pos_part, sub_ℕ, ◌-ℤ◌, eq_ℤ, ltb_ℤ}
use parallel_usdp_hyperevm_i.Savings.{compute_updated_assets}
use parallel_usdp_hyperevm_i.Savings.Segments.{
  SegmentAction, accrued, deposit, withdraw, rate_updated, SavingsRateSegmentEvent, SegmentWindow,
  SegmentError, SegmentResult, integrate_segmented_rate_window,
}

pub record ReconciliationInput : Type 0 where
  pub actual_assets_at_start : ℕ
  pub actual_assets_at_end : ℕ
  pub total_assets_at_start : ℕ
  pub total_assets_at_end : ℕ
  pub rate_at_start : ℕ
  pub rate_at_end : ℕ
  pub last_update_at_start : ℕ
  pub last_update_at_end : ℕ
  pub block_timestamp_at_start : ℕ
  pub block_timestamp_at_end : ℕ
  pub accrued_interest : ℕ
  pub native_ypo : ℤ

-- `verified` stands for both the status and the reason.
pub record ConstantRateCheck : Type 0 where
  pub verified : Bool
  pub predicted_total_assets_at_start : ℕ
  pub predicted_total_assets_at_end : ℕ
  pub independently_integrated_ypo : ℤ
  pub total_assets_start_delta : ℤ
  pub total_assets_end_delta : ℤ
  pub ypo_delta : ℤ

pub data ConstantRateOutcome : Type 0 where
  candidate invalid_time_order : ConstantRateOutcome
  checked : ConstantRateCheck → ConstantRateOutcome

abbrev pub is_stable_basis : ReconciliationInput → Bool
is_stable_basis input =
    input.actual_assets_at_start == input.actual_assets_at_end
    && input.rate_at_start == input.rate_at_end
    && input.last_update_at_start == input.last_update_at_end
    && input.accrued_interest == 0

abbrev pub start_elapsed : ReconciliationInput → ℤ
start_elapsed input = sub_ℕ input.block_timestamp_at_start input.last_update_at_start

abbrev pub end_elapsed : ReconciliationInput → ℤ
end_elapsed input = sub_ℕ input.block_timestamp_at_end input.last_update_at_end

abbrev pub check_constant_rate : ReconciliationInput → ℕ → ℕ → ConstantRateCheck
check_constant_rate input predicted_start predicted_end =
    let ypo = sub_ℕ predicted_end predicted_start in
    record {
      verified =
          predicted_start == input.total_assets_at_start
          && predicted_end == input.total_assets_at_end
          && eq_ℤ ypo input.native_ypo;
      predicted_total_assets_at_start = predicted_start;
      predicted_total_assets_at_end = predicted_end;
      independently_integrated_ypo = ypo;
      total_assets_start_delta = sub_ℕ predicted_start input.total_assets_at_start;
      total_assets_end_delta = sub_ℕ predicted_end input.total_assets_at_end;
      ypo_delta = ypo -ℤ input.native_ypo;
    }

-- Behind the guard no elapsed time is negative, and its positive part is itself.
unfoldable pub reconcile_constant_rate_window : ReconciliationInput → ConstantRateOutcome
unfolding compute_updated_assets
reconcile_constant_rate_window input =
    if is_stable_basis input
    then if ltb_ℤ (start_elapsed input) (pos 0) || ltb_ℤ (end_elapsed input) (start_elapsed input)
      then invalid_time_order
      else checked (
          check_constant_rate input
            (compute_updated_assets input.actual_assets_at_start input.rate_at_start
              (pos_part (start_elapsed input)))
            (compute_updated_assets input.actual_assets_at_end input.rate_at_end
              (pos_part (end_elapsed input))))
    else candidate

-- Times are milliseconds.
pub record YieldReconciliationRow : Type 0 where
  pub id : ℕ
  pub from_block : ℕ
  pub to_block : ℕ
  pub native_ypo : ℤ
  pub accrued_interest : ℕ
  pub start_total_assets : ℕ
  pub start_actual_assets : ℕ
  pub start_rate : ℕ
  pub start_last_update : ℕ
  pub start_timestamp : ℕ
  pub end_total_assets : ℕ
  pub end_actual_assets : ℕ
  pub end_rate : ℕ
  pub end_last_update : ℕ
  pub end_timestamp : ℕ

abbrev pub seconds : ℕ → ℕ
seconds milliseconds = milliseconds / 1000

abbrev pub reconciliation_input : YieldReconciliationRow → ReconciliationInput
reconciliation_input row = record {
  actual_assets_at_start = row.start_actual_assets;
  actual_assets_at_end = row.end_actual_assets;
  total_assets_at_start = row.start_total_assets;
  total_assets_at_end = row.end_total_assets;
  rate_at_start = row.start_rate;
  rate_at_end = row.end_rate;
  last_update_at_start = row.start_last_update;
  last_update_at_end = row.end_last_update;
  block_timestamp_at_start = seconds row.start_timestamp;
  block_timestamp_at_end = seconds row.end_timestamp;
  accrued_interest = row.accrued_interest;
  native_ypo = row.native_ypo;
}

abbrev pub segment_window : YieldReconciliationRow → SegmentWindow
segment_window row = record {
  actual_assets_at_start = row.start_actual_assets;
  total_assets_at_start = row.start_total_assets;
  rate_at_start = row.start_rate;
  last_update_at_start = row.start_last_update;
  block_timestamp_at_start = seconds row.start_timestamp;
  block_timestamp_at_end = seconds row.end_timestamp;
}

pub data SavingsEventName : Type 0 where
  accrued_event deposit_event withdraw_event rate_updated_event : SavingsEventName

-- `payload` is the field that the event's name asks for.
pub record SavingsEventRow : Type 0 where
  pub block_number : ℕ
  pub block_timestamp : ℕ
  pub log_index : ℕ
  pub event_name : SavingsEventName
  pub payload : Option ℕ

abbrev pub or_zero : Option ℕ → ℕ
or_zero none = 0
or_zero (some n) = n

abbrev pub segment_action : SavingsEventName → ℕ → SegmentAction
segment_action accrued_event interest = accrued interest
segment_action deposit_event assets = deposit assets
segment_action withdraw_event assets = withdraw assets
segment_action rate_updated_event new_rate = rate_updated new_rate

abbrev pub segment_event : SavingsEventRow → SavingsRateSegmentEvent
segment_event event = record {
  timestamp = seconds event.block_timestamp;
  log_index = event.log_index;
  action = segment_action event.event_name (or_zero event.payload);
}

-- `block_number > from_block and block_number <= to_block`
abbrev pub segmented_events :
    YieldReconciliationRow → List SavingsEventRow → List SavingsRateSegmentEvent
segmented_events row table = map segment_event (
    filter (λ event. ltb row.from_block event.block_number && leb event.block_number row.to_block)
      table)

pub record SegmentedRateCheck : Type 0 where
  pub state_exact : Bool
  pub ypo_exact : Bool
  pub independently_integrated_ypo : ℤ
  pub ypo_delta : ℤ
  pub predicted_total_assets_at_end : ℕ
  pub total_assets_end_delta : ℤ
  pub predicted_actual_assets_at_end : ℕ
  pub actual_assets_end_delta : ℤ
  pub predicted_rate_at_end : ℕ
  pub rate_end_delta : ℤ
  pub predicted_last_update_at_end : ℕ
  pub last_update_end_delta : ℤ
  pub accrued_variance : ℤ

abbrev pub is_state_exact : YieldReconciliationRow → SegmentResult → Bool
is_state_exact row integrated =
    integrated.predicted_total_assets_at_end == row.end_total_assets
    && integrated.actual_assets_at_end == row.end_actual_assets
    && integrated.rate_at_end == row.end_rate
    && integrated.emitted_accrued_interest == row.accrued_interest

abbrev pub check_segments : YieldReconciliationRow → SegmentResult → SegmentedRateCheck
check_segments row integrated = record {
  state_exact = is_state_exact row integrated;
  ypo_exact = eq_ℤ integrated.integrated_ypo row.native_ypo;
  independently_integrated_ypo = integrated.integrated_ypo;
  ypo_delta = integrated.integrated_ypo -ℤ row.native_ypo;
  predicted_total_assets_at_end = integrated.predicted_total_assets_at_end;
  total_assets_end_delta = sub_ℕ integrated.predicted_total_assets_at_end row.end_total_assets;
  predicted_actual_assets_at_end = integrated.actual_assets_at_end;
  actual_assets_end_delta = sub_ℕ integrated.actual_assets_at_end row.end_actual_assets;
  predicted_rate_at_end = integrated.rate_at_end;
  rate_end_delta = sub_ℕ integrated.rate_at_end row.end_rate;
  predicted_last_update_at_end = integrated.last_update_at_end;
  last_update_end_delta = sub_ℕ integrated.last_update_at_end row.end_last_update;
  accrued_variance = sub_ℕ integrated.emitted_accrued_interest row.accrued_interest;
}
