-- ===== src/Verification/Summary.antt =====
-- src/verification/evaluators.ts: `summarizeVerification`.
use parallel_usdp_hyperevm_i.Prelude.{
  ℕ, Bool, true, false, ◌&&◌, ◌||◌, List, if◌then◌else◌, ltb, count,
}
use parallel_usdp_hyperevm_i.Verification.{
  VerificationStatus, pass, warn, fail, FindingSeverity, info, warning, critical,
  ReconciliationResult, HealthFinding,
}

abbrev pub is_pass : VerificationStatus → Bool
is_pass pass = true
is_pass warn = false
is_pass fail = false

abbrev pub is_warn : VerificationStatus → Bool
is_warn pass = false
is_warn warn = true
is_warn fail = false

abbrev pub is_fail : VerificationStatus → Bool
is_fail pass = false
is_fail warn = false
is_fail fail = true

abbrev pub is_critical : FindingSeverity → Bool
is_critical info = false
is_critical warning = false
is_critical critical = true

pub record StatusCounts : Type 0 where
  pub passed : ℕ
  pub warned : ℕ
  pub failed : ℕ

pub record VerificationSummary : Type 0 where
  pub status : VerificationStatus
  pub reconciliation : StatusCounts
  pub health : StatusCounts
  pub critical_failures : ℕ

abbrev pub counts {ℓ} : {A : Type ℓ} → (A → VerificationStatus) → List A → StatusCounts
counts status values = record {
  passed = count (λ value. is_pass (status value)) values;
  warned = count (λ value. is_warn (status value)) values;
  failed = count (λ value. is_fail (status value)) values;
}

abbrev pub fails_critically : HealthFinding → Bool
fails_critically value = is_fail value.status && is_critical value.severity

unfoldable pub summarize_verification :
    List ReconciliationResult → List HealthFinding → VerificationSummary
summarize_verification results findings =
    let reconciliation = counts (λ (r : ReconciliationResult). r.status) results in
    let health = counts (λ (f : HealthFinding). f.status) findings in
    let critical_failures = count fails_critically findings in
    record {
      status =
          if ltb 0 reconciliation.failed || ltb 0 critical_failures
          then fail
          else if ltb 0 reconciliation.warned || ltb 0 health.warned || ltb 0 health.failed
          then warn
          else pass;
      reconciliation = reconciliation;
      health = health;
      critical_failures = critical_failures;
    }
