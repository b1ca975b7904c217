-- ===== src/Verification/Health.antt =====
-- src/verification/evaluators.ts: `evaluateHealth`.
use parallel_usdp_hyperevm_i.Prelude.{
  ℕ, Bool, String, List, [], ◌∷◌, Option, none, some, if◌then◌else◌, ltb, ◌==◌,
}
use parallel_usdp_hyperevm_i.Prelude.Int.{ℤ, pos, leb_ℤ}
use parallel_usdp_hyperevm_i.Verification.{
  VerificationStatus, pass, warn, fail, FindingSeverity, info, warning, critical, HealthFinding,
  Diagnostics, amount, truth, or_null,
}

pub record HealthInput : Type 0 where
  pub checkpoint_age_seconds : Option ℤ
  pub checkpoint_maximum_age_seconds : ℤ
  pub coverage_gap_count : ℕ
  pub decode_failure_count : ℕ
  pub duplicate_log_count : ℕ
  pub rpc_retry_count : ℕ
  pub rpc_failure_count : ℕ
  pub price_age_seconds : Option ℤ
  pub price_maximum_age_seconds : ℤ
  pub implementation_matches_manifest : Option Bool
  pub native_ypo : Option ℤ
  pub holder_history_complete : Bool

abbrev pub passes : Bool → VerificationStatus
passes ok = if ok then pass else fail

abbrev pub age_status : Option ℤ → ℤ → VerificationStatus
age_status none maximum = warn
age_status (some age) maximum = passes (leb_ℤ age maximum)

abbrev pub implementation_status : Option Bool → VerificationStatus
implementation_status none = warn
implementation_status (some matches) = passes matches

abbrev pub ypo_status : Option ℤ → VerificationStatus
ypo_status none = warn
ypo_status (some ypo) = passes (leb_ℤ (pos 0) ypo)

-- `status === "fail" ? failed : "info"`
abbrev pub severity_of : FindingSeverity → VerificationStatus → FindingSeverity
severity_of failed pass = info
severity_of failed warn = info
severity_of failed fail = failed

abbrev pub message_of : String → String → String → VerificationStatus → String
message_of passed warned failed pass = passed
message_of passed warned failed warn = warned
message_of passed warned failed fail = failed

abbrev pub finding :
    String → VerificationStatus → FindingSeverity → String → Diagnostics → HealthFinding
finding check_name status severity message diagnostics = record {
  check_name = check_name;
  status = status;
  severity = severity;
  message = message;
  diagnostics = diagnostics;
}

-- The three checks that count something that must not be there.
abbrev pub count_finding : String → ℕ → String → String → String → HealthFinding
count_finding check_name number none_found found key =
    finding check_name (passes (number == 0)) (if number == 0 then info else critical)
      (if number == 0 then none_found else found) ((key, amount (pos number)) ∷ [])

abbrev pub rpc_status : ℕ → ℕ → VerificationStatus
rpc_status failures retries = if ltb 0 failures then fail else if ltb 0 retries then warn else pass

module _ (input : HealthInput) where
  open input use {
    checkpoint_age_seconds, checkpoint_maximum_age_seconds, coverage_gap_count,
    decode_failure_count, duplicate_log_count, rpc_retry_count, rpc_failure_count,
    price_age_seconds, price_maximum_age_seconds, implementation_matches_manifest, native_ypo,
    holder_history_complete,
  }

  abbrev pub checkpoint_finding : HealthFinding
  checkpoint_finding =
      let status = age_status checkpoint_age_seconds checkpoint_maximum_age_seconds in
      finding "checkpoint_freshness" status (severity_of critical status)
        (message_of "Checkpoint is fresh" "Checkpoint freshness is unavailable"
          "Checkpoint is stale" status)
        (("ageSeconds", or_null checkpoint_age_seconds)
          ∷ ("maximumAgeSeconds", amount checkpoint_maximum_age_seconds)
          ∷ [])

  abbrev pub rpc_finding : HealthFinding
  rpc_finding =
      let status = rpc_status rpc_failure_count rpc_retry_count in
      finding "rpc_degradation" status (if ltb 0 rpc_failure_count then critical else warning)
        (message_of "No RPC degradation recorded"
          "RPC retries occurred but completed work remained durable"
          "RPC failures occurred in the verified range" status)
        (("retries", amount (pos rpc_retry_count))
          ∷ ("failures", amount (pos rpc_failure_count))
          ∷ [])

  abbrev pub price_finding : HealthFinding
  price_finding =
      let status = age_status price_age_seconds price_maximum_age_seconds in
      finding "price_freshness" status (severity_of warning status)
        (message_of "Price observation is fresh" "Price freshness is unavailable"
          "Price observation is stale" status)
        (("ageSeconds", or_null price_age_seconds)
          ∷ ("maximumAgeSeconds", amount price_maximum_age_seconds)
          ∷ [])

  abbrev pub implementation_finding : HealthFinding
  implementation_finding =
      let status = implementation_status implementation_matches_manifest in
      finding "implementation_drift" status (severity_of critical status)
        (message_of "Boundary implementations match" "Implementation evidence is unavailable"
          "Implementation changed inside the verified interval" status)
        []

  abbrev pub ypo_finding : HealthFinding
  ypo_finding =
      let status = ypo_status native_ypo in
      finding "negative_ypo" status (severity_of critical status)
        (message_of "Native YPO is non-negative" "Native YPO is unavailable"
          "Native YPO is negative" status)
        (("nativeYpo", or_null native_ypo) ∷ [])

  abbrev pub holder_finding : HealthFinding
  holder_finding =
      finding "holder_history_completeness" (if holder_history_complete then pass else warn)
        (if holder_history_complete then info else warning)
        (if holder_history_complete
          then "Holder history is complete"
          else "Holder metrics remain partial until lifetime replay completes")
        (("complete", truth holder_history_complete) ∷ [])

  unfoldable pub evaluate_health : List HealthFinding
  evaluate_health =
      checkpoint_finding
      ∷ count_finding "block_coverage_gaps" coverage_gap_count "Requested coverage is gap-free"
          "Requested coverage contains block gaps" "gapCount"
      ∷ count_finding "decode_failures" decode_failure_count "All recognized protocol logs decoded"
          "Recognized protocol logs failed to decode" "count"
      ∷ count_finding "duplicate_logs" duplicate_log_count "No duplicate raw-log identities found"
          "Duplicate raw-log identities found" "count"
      ∷ rpc_finding
      ∷ price_finding
      ∷ implementation_finding
      ∷ ypo_finding
      ∷ holder_finding
      ∷ []
