-- ===== src/Savings/Recorded.antt =====
-- What `reconcileSavingsYield` records, and what a verified segmented interval says.
use parallel_usdp_hyperevm_i.Prelude.{
  subst, ◌∙◌, ℕ, ◌+◌, ◌≡◌, refl, arith, Bool, true, false, ◌==◌, ◌⊎◌, inl, inr, Bool-cases, List,
  [], ◌∷◌, Option, none, some, ok, >>=-eq-ok, ok-injective, if◌then◌else◌,
}
use parallel_usdp_hyperevm_i.Savings.Segments.{SegmentResult, integrate_segmented_rate_window}
use parallel_usdp_hyperevm_i.Savings.Segments.Balance.{integrate_segmented_rate_window-IsAccounted}
use parallel_usdp_hyperevm_i.Savings.Segments.Steps.{interest_of, deposit_of, withdrawal_of, total}
use parallel_usdp_hyperevm_i.Savings.Reconcile.{
  ConstantRateOutcome, candidate, invalid_time_order, checked, YieldReconciliationRow,
  reconciliation_input, segment_window, SegmentedRateCheck, reconcile_constant_rate_window,
  SavingsEventRow, segmented_events, check_segments, is_state_exact,
}
use parallel_usdp_hyperevm_i.Savings.Resolve.{
  status_if, invalid_status, YieldReconciliation, unavailable, invalid_times, constant_rate,
  segmented_rate, resolve_constant, ReconciliationStatus, verified_status, YieldStatusRow,
  set_status, reconcile_savings_yield,
}

-- What is read of a status: the one of the first row with the id.
abbrev pub status_of : ℕ → List YieldStatusRow → Option ReconciliationStatus
status_of id [] = none
status_of id (row ∷ rest) =
    if row.id == id then some row.reconciliation_status else status_of id rest

abbrev pub is_verified : YieldReconciliation → Bool
is_verified unavailable = false
is_verified invalid_times = false
is_verified (constant_rate check) = check.verified
is_verified (segmented_rate check) = check.state_exact

status_of-set_status :
    (n id : ℕ) (status : ReconciliationStatus) (rows : List YieldStatusRow)
    → (n == id) ≡ false
    → status_of n (set_status id status rows) ≡ status_of n rows
unfolding set_status
status_of-set_status n id status [] h = refl
status_of-set_status n id status (row ∷ rest) h =
    ground (arith, status_of-set_status n id status rest)

status_of-same :
    (id : ℕ) (status : ReconciliationStatus) (rows : List YieldStatusRow)
    → (status_of id (set_status id status rows) ≡ none)
      ⊎ (status_of id (set_status id status rows) ≡ some status)
unfolding set_status
status_of-same id status [] = inl refl
status_of-same id status (row ∷ rest) = elim (Bool-cases (row.id == id)) [
  | inl same ↦ inr (rw (same, same) refl)
  | inr other ↦ elim (status_of-same id status rest) [
    | inl missing ↦ inl (rw (other, other) missing)
    | inr stored ↦ inr (rw (other, other) stored)
  ]
]

state_parts :
    (row : YieldReconciliationRow) (result : SegmentResult)
    → is_state_exact row result ≡ true
    → (result.actual_assets_at_end ≡ row.end_actual_assets)
      × (result.emitted_accrued_interest ≡ row.accrued_interest)
state_parts row result h = (ground arith, ground arith)

segmented_lem :
    (row : YieldReconciliationRow) (events : List SavingsEventRow)
    (statuses after : List YieldStatusRow) (check : SegmentedRateCheck)
    (outcome : ConstantRateOutcome)
    → resolve_constant row events statuses outcome ≡ ok (segmented_rate check, after)
    → check.state_exact ≡ true
    → (row.end_actual_assets + total withdrawal_of (segmented_events row events)
        ≡ row.start_actual_assets
          + total deposit_of (segmented_events row events)
          + row.accrued_interest)
      × (row.accrued_interest ≡ total interest_of (segmented_events row events))
segmented_lem row events statuses after check candidate h exact =
    let (result, integrated, e) = >>=-eq-ok _ _ h in
    let a =
      integrate_segmented_rate_window-IsAccounted (segment_window row) (segmented_events row events)
        result integrated in
    let found : is_state_exact row result ≡ check.state_exact = cc e in
    let same : is_state_exact row result ≡ true = found ∙ exact in
    let (assets, interest) = state_parts row result same in
    (omega (arith, a.assets, a.interest, assets, interest), omega (arith, a.interest, interest))
segmented_lem row events statuses after check invalid_time_order h exact = cc
segmented_lem row events statuses after check (checked c) h exact = cc

-- An interval whose segmented reconciliation is exact ends with the assets that its start, the
-- deposits, the withdrawals and the accrued interest of the savings events between its blocks lead
-- to, and its accrued interest is the sum of theirs.
pub reconcile_savings_yield-segmented :
    (row : YieldReconciliationRow) (events : List SavingsEventRow)
    (statuses after : List YieldStatusRow) (check : SegmentedRateCheck)
    → reconcile_savings_yield (some row) events statuses ≡ ok (segmented_rate check, after)
    → check.state_exact ≡ true
    → (row.end_actual_assets + total withdrawal_of (segmented_events row events)
        ≡ row.start_actual_assets
          + total deposit_of (segmented_events row events)
          + row.accrued_interest)
      × (row.accrued_interest ≡ total interest_of (segmented_events row events))
unfolding reconcile_savings_yield
reconcile_savings_yield-segmented row events statuses after check h exact =
    segmented_lem row events statuses after check
      (reconcile_constant_rate_window (reconciliation_input row)) h exact

-- Which rows a status leaves alone, and when the row's own status says verified.
abbrev Records : ℕ → List YieldStatusRow → YieldReconciliation → List YieldStatusRow → Type 0
Records id statuses outcome after =
    ((n : ℕ) → (n == id) ≡ false → status_of n after ≡ status_of n statuses)
    × (status_of id after ≡ some verified_status → is_verified outcome ≡ true)

verified_lem :
    (id : ℕ) (verified : Bool) (statuses : List YieldStatusRow)
    → status_of id (set_status id (status_if verified) statuses) ≡ some verified_status
    → verified ≡ true
verified_lem id true statuses h = refl
verified_lem id false statuses h = elim (status_of-same id invalid_status statuses) [
  | inl missing ↦ cc
  | inr stored ↦ cc
]

Records-resolve_constant :
    (row : YieldReconciliationRow) (events : List SavingsEventRow)
    (statuses after : List YieldStatusRow) (outcome : YieldReconciliation)
    (constant : ConstantRateOutcome)
    → resolve_constant row events statuses constant ≡ ok (outcome, after)
    → Records row.id statuses outcome after
Records-resolve_constant row events statuses after outcome candidate h =
    let (result, integrated, e) =
      >>=-eq-ok (integrate_segmented_rate_window (segment_window row) (segmented_events row events))
        (λ (x : SegmentResult). ok (
          segmented_rate (check_segments row x),
          set_status row.id (status_if (is_state_exact row x)) statuses,
        ))
        h in
    subst (λ (x : YieldReconciliation × List YieldStatusRow). Records row.id statuses x.0 x.1)
      {x = (
        segmented_rate (check_segments row result),
        set_status row.id (status_if (is_state_exact row result)) statuses,
      )}
      (ok-injective e)
      (
        λ n other. status_of-set_status n row.id _ statuses other,
        verified_lem row.id (is_state_exact row result) statuses,
      )
Records-resolve_constant row events statuses after outcome invalid_time_order h =
    subst (λ (x : YieldReconciliation × List YieldStatusRow). Records row.id statuses x.0 x.1)
      {x = (invalid_times, set_status row.id invalid_status statuses)} (ok-injective h)
      (
        λ n other. status_of-set_status n row.id _ statuses other,
        verified_lem row.id false statuses,
      )
Records-resolve_constant row events statuses after outcome (checked check) h =
    subst (λ (x : YieldReconciliation × List YieldStatusRow). Records row.id statuses x.0 x.1)
      {x = (constant_rate check, set_status row.id (status_if check.verified) statuses)}
      (ok-injective h)
      (
        λ n other. status_of-set_status n row.id _ statuses other,
        verified_lem row.id check.verified statuses,
      )

-- A reconciliation that does not throw leaves the statuses of all other intervals alone, and the
-- interval's own status is verified afterwards only if the reconciliation is exact.
pub reconcile_savings_yield-Records :
    (row : YieldReconciliationRow) (events : List SavingsEventRow)
    (statuses after : List YieldStatusRow) (outcome : YieldReconciliation)
    → reconcile_savings_yield (some row) events statuses ≡ ok (outcome, after)
    → ((n : ℕ) → (n == row.id) ≡ false → status_of n after ≡ status_of n statuses)
      × (status_of row.id after ≡ some verified_status → is_verified outcome ≡ true)
unfolding reconcile_savings_yield
reconcile_savings_yield-Records row events statuses after outcome h =
    Records-resolve_constant row events statuses after outcome
      (reconcile_constant_rate_window (reconciliation_input row)) h
