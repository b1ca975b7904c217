-- ===== src/Savings/Resolve.antt =====
-- src/analytics/yield-reconciliation.ts: how `reconcileSavingsYield` resolves an interval and
-- records its status.
use parallel_usdp_hyperevm_i.Prelude.{
  ℕ, Bool, ◌==◌, List, [], ◌∷◌, Option, none, some, if◌then◌else◌, Result, ok, ◌>>=◌,
}
use parallel_usdp_hyperevm_i.Savings.Segments.{SegmentError, integrate_segmented_rate_window}
use parallel_usdp_hyperevm_i.Savings.Reconcile.{
  ConstantRateCheck, ConstantRateOutcome, candidate, invalid_time_order, checked,
  reconcile_constant_rate_window, YieldReconciliationRow, reconciliation_input, segment_window,
  SavingsEventRow, segmented_events, SegmentedRateCheck, check_segments,
}

pub data YieldReconciliation : Type 0 where
  unavailable invalid_times : YieldReconciliation
  constant_rate : ConstantRateCheck → YieldReconciliation
  segmented_rate : SegmentedRateCheck → YieldReconciliation

pub data ReconciliationStatus : Type 0 where
  candidate_status verified_status invalid_status : ReconciliationStatus

-- The columns of `savings_yield_aggregates` that are written.
pub record YieldStatusRow : Type 0 where
  pub id : ℕ
  pub reconciliation_status : ReconciliationStatus

abbrev pub status_if : Bool → ReconciliationStatus
status_if verified = if verified then verified_status else invalid_status

unfoldable pub set_status : ℕ → ReconciliationStatus → List YieldStatusRow → List YieldStatusRow
set_status id status [] = []
set_status id status (row ∷ rest) =
    (if row.id == id then record row { reconciliation_status = status } else row)
    ∷ set_status id status rest

abbrev pub SavingsOutcome : Type 0
SavingsOutcome = Result SegmentError (YieldReconciliation × List YieldStatusRow)

abbrev pub resolve_constant :
    YieldReconciliationRow
    → List SavingsEventRow
    → List YieldStatusRow
    → ConstantRateOutcome
    → SavingsOutcome
resolve_constant row events statuses candidate =
    integrate_segmented_rate_window (segment_window row) (segmented_events row events)
    >>= λ integrated.
        let check = check_segments row integrated in
        ok (segmented_rate check, set_status row.id (status_if check.state_exact) statuses)
resolve_constant row events statuses invalid_time_order =
    ok (invalid_times, set_status row.id invalid_status statuses)
resolve_constant row events statuses (checked check) =
    ok (constant_rate check, set_status row.id (status_if check.verified) statuses)

unfoldable pub reconcile_savings_yield :
    Option YieldReconciliationRow → List SavingsEventRow → List YieldStatusRow → SavingsOutcome
unfolding integrate_segmented_rate_window reconcile_constant_rate_window set_status
reconcile_savings_yield none events statuses = ok (unavailable, statuses)
reconcile_savings_yield (some row) events statuses =
    resolve_constant row events statuses (reconcile_constant_rate_window (reconciliation_input row))
