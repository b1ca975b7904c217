-- ===== src/Savings/Segments.antt =====
-- src/analytics/yield-reconciliation.ts: `integrateSegmentedRateWindow`.
pub mod Steps
pub mod Balance
use parallel_usdp_hyperevm_i.Prelude.{
  ℕ, ◌+◌, ◌-◌, Bool, ◌&&◌, ◌||◌, ◌==◌, ltb, List, [], ◌∷◌, if◌then◌else◌, Result, ok, err, ◌>>=◌,
  sort_by,
}
use parallel_usdp_hyperevm_i.Prelude.Int.{ℤ, pos, sub_ℕ, ◌+ℤ◌, ◌-ℤ◌}
use parallel_usdp_hyperevm_i.Savings.{compute_updated_assets}

pub data SegmentAction : Type 0 where
  accrued deposit withdraw rate_updated : ℕ → SegmentAction

pub record SavingsRateSegmentEvent : Type 0 where
  pub timestamp : ℕ
  pub log_index : ℕ
  pub action : SegmentAction

pub record SegmentWindow : Type 0 where
  pub actual_assets_at_start : ℕ
  pub total_assets_at_start : ℕ
  pub rate_at_start : ℕ
  pub last_update_at_start : ℕ
  pub block_timestamp_at_start : ℕ
  pub block_timestamp_at_end : ℕ

pub data SegmentError : Type 0 where
  bad_boundaries event_outside withdrawal_exceeds_assets : SegmentError

-- The variables of the loop.
pub record SegmentState : Type 0 where
  pub actual_assets : ℕ
  pub rate : ℕ
  pub last_update : ℕ
  pub integrated_ypo : ℤ
  pub predicted_accrued_interest : ℤ
  pub emitted_accrued_interest : ℕ

pub record SegmentResult : Type 0 where
  pub integrated_ypo : ℤ
  pub predicted_accrued_interest : ℤ
  pub emitted_accrued_interest : ℕ
  pub accrued_variance : ℤ
  pub predicted_pending_yield_at_end : ℤ
  pub predicted_total_assets_at_end : ℕ
  pub actual_assets_at_end : ℕ
  pub rate_at_end : ℕ
  pub last_update_at_end : ℕ

-- By time, and in the same second by the index of the log.
abbrev pub happens_before : SavingsRateSegmentEvent → SavingsRateSegmentEvent → Bool
happens_before left right =
    ltb left.timestamp right.timestamp
    || (left.timestamp == right.timestamp && ltb left.log_index right.log_index)

abbrev pub is_outside : ℕ → ℕ → SegmentState → SavingsRateSegmentEvent → Bool
is_outside start end s event =
    ltb event.timestamp start || ltb end event.timestamp || ltb event.timestamp s.last_update

unfoldable pub act : SegmentState → ℕ → SegmentAction → Result SegmentError SegmentState
unfolding compute_updated_assets
act s timestamp (accrued interest) =
    let predicted_assets =
      compute_updated_assets s.actual_assets s.rate (timestamp - s.last_update) in
    let predicted_interest = sub_ℕ predicted_assets s.actual_assets in
    ok (record s {
      predicted_accrued_interest = s.predicted_accrued_interest +ℤ predicted_interest;
      emitted_accrued_interest = s.emitted_accrued_interest + interest;
      integrated_ypo = s.integrated_ypo +ℤ predicted_interest;
      actual_assets = s.actual_assets + interest;
      last_update = timestamp;
    })
act s timestamp (deposit assets) = ok (record s { actual_assets = s.actual_assets + assets })
act s timestamp (withdraw assets) =
    if ltb s.actual_assets assets
    then err withdrawal_exceeds_assets
    else ok (record s { actual_assets = s.actual_assets - assets })
act s timestamp (rate_updated new_rate) = ok (record s { rate = new_rate })

unfoldable pub integrate_events :
    ℕ → ℕ → List SavingsRateSegmentEvent → SegmentState → Result SegmentError SegmentState
unfolding act
integrate_events start end [] s = ok s
integrate_events start end (event ∷ rest) s =
    if is_outside start end s event
    then err event_outside
    else act s event.timestamp event.action >>= integrate_events start end rest

abbrev pub begin_segments : SegmentWindow → SegmentState
begin_segments window = record {
  actual_assets = window.actual_assets_at_start;
  rate = window.rate_at_start;
  last_update = window.last_update_at_start;
  integrated_ypo = pos 0 -ℤ sub_ℕ window.total_assets_at_start window.actual_assets_at_start;
  predicted_accrued_interest = pos 0;
  emitted_accrued_interest = 0;
}

unfoldable pub close_segments : ℕ → SegmentState → SegmentResult
unfolding compute_updated_assets
close_segments end s =
    let predicted_total = compute_updated_assets s.actual_assets s.rate (end - s.last_update) in
    let pending = sub_ℕ predicted_total s.actual_assets in
    record {
      integrated_ypo = s.integrated_ypo +ℤ pending;
      predicted_accrued_interest = s.predicted_accrued_interest;
      emitted_accrued_interest = s.emitted_accrued_interest;
      accrued_variance = pos s.emitted_accrued_interest -ℤ s.predicted_accrued_interest;
      predicted_pending_yield_at_end = pending;
      predicted_total_assets_at_end = predicted_total;
      actual_assets_at_end = s.actual_assets;
      rate_at_end = s.rate;
      last_update_at_end = s.last_update;
    }

unfoldable pub integrate_segmented_rate_window :
    SegmentWindow → List SavingsRateSegmentEvent → Result SegmentError SegmentResult
unfolding integrate_events close_segments
integrate_segmented_rate_window window events =
    if ltb window.block_timestamp_at_end window.block_timestamp_at_start
      || ltb window.block_timestamp_at_start window.last_update_at_start
    then err bad_boundaries
    else integrate_events window.block_timestamp_at_start window.block_timestamp_at_end
        (sort_by happens_before events) (begin_segments window)
      >>= λ s. ok (close_segments window.block_timestamp_at_end s)
