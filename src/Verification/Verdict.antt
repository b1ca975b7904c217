-- ===== src/Verification/Verdict.antt =====
-- When `summarizeVerification` says pass, warn or fail.
use parallel_usdp_hyperevm_i.Prelude.{
  not, refl, [], ◌∷◌, if◌then◌else◌, ◌||◌, arith, ◌&&◌, ◌∷◌, all, any, ◌≡◌, count, ltb, List, Bool,
  true,
}
use parallel_usdp_hyperevm_i.Verification.{
  VerificationStatus, warn, pass, fail, HealthFinding, ReconciliationResult,
}
use parallel_usdp_hyperevm_i.Verification.Summary.{
  is_warn, fails_critically, is_fail, summarize_verification, is_pass,
}

count-any {ℓ} : {A : Type ℓ} (p : A → Bool) (xs : List A) → ltb 0 (count p xs) ≡ any p xs
count-any p [] = refl
count-any p (x ∷ xs) = ground (arith, count-any p xs)

pass_split :
    (s : VerificationStatus) (failed warned : Bool)
    → (is_pass s && (not failed && not warned))
      ≡ (not (is_fail s || failed) && not (is_warn s || warned))
pass_split pass failed warned = refl
pass_split warn failed warned = ground arith
pass_split fail failed warned = refl

all_pass {ℓ} :
    {A : Type ℓ} (status : A → VerificationStatus) (xs : List A)
    → all (λ x. is_pass (status x)) xs
      ≡ (not (any (λ x. is_fail (status x)) xs) && not (any (λ x. is_warn (status x)) xs))
all_pass status [] = refl
all_pass status (x ∷ xs) = rw (all_pass status xs) (pass_split (status x) _ _)

any_critical :
    (findings : List HealthFinding)
    → any fails_critically findings ≡ true
    → any (λ f. is_fail f.status) findings ≡ true
any_critical [] h = h
any_critical (f ∷ rest) h = ground (arith, any_critical rest)

verdict_lem :
    (failed severe warned health_warned health_failed : Bool)
    → (severe ≡ true → health_failed ≡ true)
    → (is_pass (
          if failed || severe
          then fail
          else if warned || health_warned || health_failed
          then warn
          else pass)
        ≡ ((not failed && not warned) && (not health_failed && not health_warned)))
      × (is_fail (
            if failed || severe
            then fail
            else if warned || health_warned || health_failed
            then warn
            else pass)
          ≡ (failed || severe))
verdict_lem failed severe warned health_warned health_failed h = (ground arith, ground arith)

-- A verdict is `pass` exactly if every result and every finding passes, and `fail` exactly if some
-- result fails or some critical finding fails.
pub summarize_verification-status :
    (results : List ReconciliationResult) (findings : List HealthFinding)
    → (is_pass (summarize_verification results findings).status
        ≡ (all (λ r. is_pass r.status) results && all (λ f. is_pass f.status) findings))
      × (is_fail (summarize_verification results findings).status
          ≡ (any (λ r. is_fail r.status) results || any fails_critically findings))
unfolding summarize_verification
summarize_verification-status results findings =
    rw
      (
        count-any (λ (r : ReconciliationResult). is_fail r.status) results,
        count-any fails_critically findings,
        count-any (λ (r : ReconciliationResult). is_warn r.status) results,
        count-any (λ (f : HealthFinding). is_warn f.status) findings,
        count-any (λ (f : HealthFinding). is_fail f.status) findings,
        all_pass (λ (r : ReconciliationResult). r.status) results,
        all_pass (λ (f : HealthFinding). f.status) findings,
      )
      (verdict_lem _ _ _ _ _ (any_critical findings))
