-- ===== src/Tests/Verifying.antt =====
-- Verdicts of the verification on one state that is in order, and on one with a gap.
use parallel_usdp_hyperevm_i.Prelude.{◌||◌, any, ◌&&◌, ◌↔◌, all, [], true, some, none, refl, ◌≡◌}
use parallel_usdp_hyperevm_i.Prelude.Int.{pos}
use parallel_usdp_hyperevm_i.Verification.Core.{
  CoreReconciliationInput, evaluate_core_reconciliations,
}
use parallel_usdp_hyperevm_i.Verification.Health.{HealthInput, evaluate_health}
use parallel_usdp_hyperevm_i.Verification.Summary.{is_pass, is_fail, summarize_verification}
use parallel_usdp_hyperevm_i.Verification.Clear.{IsClear, summarize_verification-IsClear}

abbrev amounts : CoreReconciliationInput
amounts = record {
  start_usdp_supply = some (pos 100);
  end_usdp_supply = some (pos 120);
  usdp_minted = some (pos 50);
  usdp_burned = some (pos 30);
  start_susdp_supply = some (pos 40);
  end_susdp_supply = some (pos 35);
  susdp_minted = some (pos 5);
  susdp_burned = some (pos 10);
  start_actual_assets = some (pos 42);
  end_actual_assets = some (pos 40);
  deposited_assets = some (pos 6);
  withdrawn_assets = some (pos 11);
  accrued_assets = some (pos 2);
  direct_underlying_net = some (pos 0);
  converted_total_supply_assets = some (pos 43);
  end_total_assets = some (pos 43);
  holder_balance_sum = some (pos 35);
  holder_history_complete = true;
  rate_integrated_ypo = some (pos 3);
  native_ypo = some (pos 3);
  indexed_through_block = some (pos 900);
  requested_to_block = pos 900;
}

abbrev health : HealthInput
health = record {
  checkpoint_age_seconds = some (pos 12);
  checkpoint_maximum_age_seconds = pos 600;
  coverage_gap_count = 0;
  decode_failure_count = 0;
  duplicate_log_count = 0;
  rpc_retry_count = 0;
  rpc_failure_count = 0;
  price_age_seconds = some (pos 30);
  price_maximum_age_seconds = pos 300;
  implementation_matches_manifest = some true;
  native_ypo = some (pos 3);
  holder_history_complete = true;
}

clear :
    is_pass
      (summarize_verification
        (evaluate_core_reconciliations amounts)
        (evaluate_health health)).status
    ≡ true
unfolding summarize_verification evaluate_core_reconciliations
    parallel_usdp_hyperevm_i.Prelude.Int.◌-ℤ◌ parallel_usdp_hyperevm_i.Prelude.Int.◌+ℤ◌
    evaluate_health
clear = refl

gap_fails :
    is_fail
      (summarize_verification
        (evaluate_core_reconciliations amounts)
        (evaluate_health (record health { coverage_gap_count = 1 }))).status
    ≡ true
unfolding summarize_verification evaluate_core_reconciliations
    parallel_usdp_hyperevm_i.Prelude.Int.◌-ℤ◌ parallel_usdp_hyperevm_i.Prelude.Int.◌+ℤ◌
    evaluate_health
gap_fails = refl

summarize_verification-IsClear_example : IsClear amounts health
summarize_verification-IsClear_example = summarize_verification-IsClear amounts health clear
