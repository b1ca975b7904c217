-- ===== src/Verification.antt =====
-- src/verification/evaluators.ts: results of reconciliations and findings of health checks. A
-- number that the source prints stands for its text, and entries of diagnostics are pairs.
pub mod Core
pub mod Health
pub mod Summary
pub mod Agreement
pub mod Verdict
pub mod Clear
use parallel_usdp_hyperevm_i.Prelude.{
  Bool, List, [], ◌∷◌, ◌++◌, String, Option, none, some, if◌then◌else◌, suc, ℕ,
}
use parallel_usdp_hyperevm_i.Prelude.Int.{ℤ, pos, negsuc, ◌+ℤ◌, ◌-ℤ◌, leb_ℤ}

pub data VerificationStatus : Type 0 where
  pass warn fail : VerificationStatus

pub data FindingSeverity : Type 0 where
  info warning critical : FindingSeverity

pub data Diagnostic : Type 0 where
  absent : Diagnostic
  amount : ℤ → Diagnostic
  truth : Bool → Diagnostic
  reason : String → Diagnostic

abbrev pub Diagnostics : Type 0
Diagnostics = List (String × Diagnostic)

pub record ReconciliationResult : Type 0 where
  pub check_name : String
  pub status : VerificationStatus
  pub expected_value : Option ℤ
  pub actual_value : Option ℤ
  pub variance : Option ℤ
  pub tolerance : ℤ
  pub diagnostics : Diagnostics

pub record HealthFinding : Type 0 where
  pub check_name : String
  pub status : VerificationStatus
  pub severity : FindingSeverity
  pub message : String
  pub diagnostics : Diagnostics

-- `value?.toString() ?? null`
abbrev pub or_null : Option ℤ → Diagnostic
or_null none = absent
or_null (some value) = amount value

abbrev pub absolute : ℤ → ℤ
absolute (pos n) = pos n
absolute (negsuc n) = pos (suc n)

abbrev pub unavailable : String → Option ℤ → Option ℤ → ℤ → Diagnostics → ReconciliationResult
unavailable check_name expected actual tolerance diagnostics = record {
  check_name = check_name;
  status = warn;
  expected_value = expected;
  actual_value = actual;
  variance = none;
  tolerance = tolerance;
  diagnostics = ("reason", reason "required_input_unavailable") ∷ diagnostics;
}

unfoldable pub compare_numeric :
    String → Option ℤ → Option ℤ → ℤ → Diagnostics → ReconciliationResult
compare_numeric check_name none actual tolerance diagnostics =
    unavailable check_name none actual tolerance diagnostics
compare_numeric check_name (some expected) none tolerance diagnostics =
    unavailable check_name (some expected) none tolerance diagnostics
compare_numeric check_name (some expected) (some actual) tolerance diagnostics =
    let variance = actual -ℤ expected in
    record {
      check_name = check_name;
      status = if leb_ℤ (absolute variance) tolerance then pass else fail;
      expected_value = some expected;
      actual_value = some actual;
      variance = some variance;
      tolerance = tolerance;
      diagnostics = diagnostics;
    }

-- A sum or a difference of amounts, where both are available.
abbrev pub plus_some : Option ℤ → Option ℤ → Option ℤ
plus_some none b = none
plus_some (some a) none = none
plus_some (some a) (some b) = some (a +ℤ b)

abbrev pub minus_some : Option ℤ → Option ℤ → Option ℤ
minus_some none b = none
minus_some (some a) none = none
minus_some (some a) (some b) = some (a -ℤ b)

unfoldable pub reconcile_delta :
    String → Option ℤ → Option ℤ → Option ℤ → ℤ → Diagnostics → ReconciliationResult
unfolding compare_numeric
reconcile_delta check_name start net_change end tolerance diagnostics =
    compare_numeric check_name (plus_some start net_change) end tolerance
      (("start", or_null start) ∷ ("netChange", or_null net_change) ∷ diagnostics)
