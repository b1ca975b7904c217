-- ===== src/Verification/Clear.antt =====
-- What a clear verdict of src/verification/evaluators.ts says.
use parallel_usdp_hyperevm_i.Prelude.{
  if◌then◌else◌, ◌==◌, ℕ, String, arith, Bool, ◌≡◌, Option, none, some, false, refl, all, true,
  and_parts, sym, ◌∙◌,
}
use parallel_usdp_hyperevm_i.Prelude.Int.{ℤ, pos}
use parallel_usdp_hyperevm_i.Verification.{
  plus_some, minus_some, reconcile_delta, pass, warn, Diagnostics,
}
use parallel_usdp_hyperevm_i.Verification.Summary.{summarize_verification, is_pass}
use parallel_usdp_hyperevm_i.Verification.Core.{
  if_complete, head_check, underlying_net, ypo_check, holder_check, conversion_check,
  underlying_check, susdp_supply_check, usdp_supply_check, CoreReconciliationInput,
  evaluate_core_reconciliations,
}
use parallel_usdp_hyperevm_i.Verification.Health.{
  rpc_status, passes, implementation_status, HealthInput, evaluate_health,
}
use parallel_usdp_hyperevm_i.Verification.Agreement.{Agrees, compare_numeric-pass}
use parallel_usdp_hyperevm_i.Verification.Verdict.{summarize_verification-status}

-- What a clear verdict says of the amounts and of the state of the index.
pub record IsClear (input : CoreReconciliationInput) (health : HealthInput) : Type 0 where
  pub usdp_supply :
      Agrees
        (pos 0)
        (plus_some input.start_usdp_supply (minus_some input.usdp_minted input.usdp_burned))
        input.end_usdp_supply
  pub susdp_supply :
      Agrees
        (pos 0)
        (plus_some input.start_susdp_supply (minus_some input.susdp_minted input.susdp_burned))
        input.end_susdp_supply
  pub underlying :
      Agrees
        (pos 1)
        (plus_some input.start_actual_assets (underlying_net input))
        input.end_actual_assets
  pub conversion : Agrees (pos 1) input.end_total_assets input.converted_total_supply_assets
  pub holders :
      Agrees
        (pos 0)
        (if_complete input.holder_history_complete input.end_susdp_supply)
        (if_complete input.holder_history_complete input.holder_balance_sum)
  pub ypo : Agrees (pos 1) input.rate_integrated_ypo input.native_ypo
  pub head : Agrees (pos 0) (some input.requested_to_block) input.indexed_through_block
  pub no_gap : health.coverage_gap_count ≡ 0
  pub no_failure : health.decode_failure_count ≡ 0
  pub no_duplicate : health.duplicate_log_count ≡ 0
  pub no_retry : health.rpc_retry_count ≡ 0
  pub no_rpc_failure : health.rpc_failure_count ≡ 0
  pub matches : health.implementation_matches_manifest ≡ some true
  pub history : health.holder_history_complete ≡ true

delta_pass :
    (check_name : String) (start net_change end : Option ℤ) (tolerance : ℤ)
    (diagnostics : Diagnostics)
    → is_pass (reconcile_delta check_name start net_change end tolerance diagnostics).status ≡ true
    → Agrees tolerance (plus_some start net_change) end
unfolding reconcile_delta
delta_pass check_name start net_change end tolerance diagnostics h =
    (compare_numeric-pass check_name (plus_some start net_change) end tolerance _).0 h

core_parts :
    (input : CoreReconciliationInput)
    → all (λ r. is_pass r.status) (evaluate_core_reconciliations input) ≡ true
    → (is_pass (usdp_supply_check input).status ≡ true)
      × (is_pass (susdp_supply_check input).status ≡ true)
      × (is_pass (underlying_check input).status ≡ true)
      × (is_pass (conversion_check input).status ≡ true)
      × (is_pass (holder_check input).status ≡ true)
      × (is_pass (ypo_check input).status ≡ true)
      × (is_pass (head_check input).status ≡ true)
unfolding evaluate_core_reconciliations
core_parts input h =
    let (a, h1) = and_parts _ _ h in
    let (b, h2) = and_parts _ _ h1 in
    let (c, h3) = and_parts _ _ h2 in
    let (d, h4) = and_parts _ _ h3 in
    let (e, h5) = and_parts _ _ h4 in
    let (f, h6) = and_parts _ _ h5 in let (g, h7) = and_parts _ _ h6 in (a, b, c, d, e, f, g)

matches_lem :
    (matches : Option Bool) → is_pass (implementation_status matches) ≡ true → matches ≡ some true
matches_lem none h = ground arith
matches_lem (some true) h = refl
matches_lem (some false) h = ground arith

none_counted : (n : ℕ) → is_pass (passes (n == 0)) ≡ true → n ≡ 0
none_counted n h = ground arith

no_rpc_trouble :
    (failures retries : ℕ)
    → is_pass (rpc_status failures retries) ≡ true
    → (retries ≡ 0) × (failures ≡ 0)
no_rpc_trouble failures retries h = (ground arith, ground arith)

complete_history :
    (complete : Bool) → is_pass (if complete then pass else warn) ≡ true → complete ≡ true
complete_history true h = refl
complete_history false h = h

health_parts :
    (health : HealthInput)
    → all (λ f. is_pass f.status) (evaluate_health health) ≡ true
    → (health.coverage_gap_count ≡ 0)
      × (health.decode_failure_count ≡ 0)
      × (health.duplicate_log_count ≡ 0)
      × (health.rpc_retry_count ≡ 0)
      × (health.rpc_failure_count ≡ 0)
      × (health.implementation_matches_manifest ≡ some true)
      × (health.holder_history_complete ≡ true)
unfolding evaluate_health
health_parts health h =
    let (checkpoint, h1) = and_parts _ _ h in
    let (gaps, h2) = and_parts _ _ h1 in
    let (failures, h3) = and_parts _ _ h2 in
    let (duplicates, h4) = and_parts _ _ h3 in
    let (rpc, h5) = and_parts _ _ h4 in
    let (price, h6) = and_parts _ _ h5 in
    let (implementation, h7) = and_parts _ _ h6 in
    let (ypo, h8) = and_parts _ _ h7 in
    let (history, _) = and_parts _ _ h8 in
    (
      none_counted health.coverage_gap_count gaps,
      none_counted health.decode_failure_count failures,
      none_counted health.duplicate_log_count duplicates,
      (no_rpc_trouble health.rpc_failure_count health.rpc_retry_count rpc).0,
      (no_rpc_trouble health.rpc_failure_count health.rpc_retry_count rpc).1,
      matches_lem health.implementation_matches_manifest implementation,
      complete_history health.holder_history_complete history,
    )

-- A verdict `pass` over the core reconciliations and the health findings means that both supplies
-- end where their mints and burns lead, that the underlying assets, the conversion and the yield
-- agree within one unit, that the holders' balances sum to the supply, that the index has reached
-- the requested block, and that there is no gap, decode failure, duplicate log, retry or failure,
-- with the implementation unchanged and the holders' history complete.
pub summarize_verification-IsClear :
    (input : CoreReconciliationInput) (health : HealthInput)
    → is_pass
        (summarize_verification
          (evaluate_core_reconciliations input)
          (evaluate_health health)).status
      ≡ true
    → IsClear input health
summarize_verification-IsClear input health h =
    let (core, healthy) = and_parts _ _ (sym (summarize_verification-status _ _).0 ∙ h) in
    let (usdp, susdp, underlying, conversion, holders, ypo, head) = core_parts input core in
    let (gaps, failures, duplicates, retries, rpc, matches, history) =
      health_parts health healthy in
    record {
      usdp_supply = delta_pass _ _ _ _ _ _ usdp;
      susdp_supply = delta_pass _ _ _ _ _ _ susdp;
      underlying = delta_pass _ _ _ _ _ _ underlying;
      conversion = (compare_numeric-pass _ _ _ _ _).0 conversion;
      holders = (compare_numeric-pass _ _ _ _ _).0 holders;
      ypo = (compare_numeric-pass _ _ _ _ _).0 ypo;
      head = (compare_numeric-pass _ _ _ _ _).0 head;
      no_gap = gaps;
      no_failure = failures;
      no_duplicate = duplicates;
      no_retry = retries;
      no_rpc_failure = rpc;
      matches = matches;
      history = history;
    }
