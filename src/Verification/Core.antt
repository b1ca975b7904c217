-- ===== src/Verification/Core.antt =====
-- src/verification/evaluators.ts: `evaluateCoreReconciliations`.
use parallel_usdp_hyperevm_i.Prelude.{Bool, List, [], ◌∷◌, Option, none, some, if◌then◌else◌}
use parallel_usdp_hyperevm_i.Prelude.Int.{ℤ, pos}
use parallel_usdp_hyperevm_i.Verification.{
  ReconciliationResult, truth, or_null, compare_numeric, plus_some, minus_some, reconcile_delta,
}

pub record CoreReconciliationInput : Type 0 where
  pub start_usdp_supply : Option ℤ
  pub end_usdp_supply : Option ℤ
  pub usdp_minted : Option ℤ
  pub usdp_burned : Option ℤ
  pub start_susdp_supply : Option ℤ
  pub end_susdp_supply : Option ℤ
  pub susdp_minted : Option ℤ
  pub susdp_burned : Option ℤ
  pub start_actual_assets : Option ℤ
  pub end_actual_assets : Option ℤ
  pub deposited_assets : Option ℤ
  pub withdrawn_assets : Option ℤ
  pub accrued_assets : Option ℤ
  pub direct_underlying_net : Option ℤ
  pub converted_total_supply_assets : Option ℤ
  pub end_total_assets : Option ℤ
  pub holder_balance_sum : Option ℤ
  pub holder_history_complete : Bool
  pub rate_integrated_ypo : Option ℤ
  pub native_ypo : Option ℤ
  pub indexed_through_block : Option ℤ
  pub requested_to_block : ℤ

abbrev pub if_complete : Bool → Option ℤ → Option ℤ
if_complete complete value = if complete then value else none

module _ (input : CoreReconciliationInput) where
  open input use {
    start_usdp_supply, end_usdp_supply, usdp_minted, usdp_burned, start_susdp_supply,
    end_susdp_supply, susdp_minted, susdp_burned, start_actual_assets, end_actual_assets,
    deposited_assets, withdrawn_assets, accrued_assets, direct_underlying_net,
    converted_total_supply_assets, end_total_assets, holder_balance_sum, holder_history_complete,
    rate_integrated_ypo, native_ypo, indexed_through_block, requested_to_block,
  }

  abbrev pub underlying_net : Option ℤ
  underlying_net =
      plus_some (plus_some (minus_some deposited_assets withdrawn_assets) accrued_assets)
        direct_underlying_net

  abbrev pub usdp_supply_check : ReconciliationResult
  usdp_supply_check =
      reconcile_delta "usdp_supply_delta_vs_mint_burn" start_usdp_supply
        (minus_some usdp_minted usdp_burned) end_usdp_supply (pos 0)
        (("minted", or_null usdp_minted) ∷ ("burned", or_null usdp_burned) ∷ [])

  abbrev pub susdp_supply_check : ReconciliationResult
  susdp_supply_check =
      reconcile_delta "susdp_supply_delta_vs_share_mint_burn" start_susdp_supply
        (minus_some susdp_minted susdp_burned) end_susdp_supply (pos 0)
        (("minted", or_null susdp_minted) ∷ ("burned", or_null susdp_burned) ∷ [])

  abbrev pub underlying_check : ReconciliationResult
  underlying_check =
      reconcile_delta "susdp_underlying_balance_accounting" start_actual_assets underlying_net
        end_actual_assets (pos 1)
        (("deposits", or_null deposited_assets)
          ∷ ("withdrawals", or_null withdrawn_assets)
          ∷ ("accrued", or_null accrued_assets)
          ∷ ("directUnderlyingNet", or_null direct_underlying_net)
          ∷ [])

  abbrev pub holder_check : ReconciliationResult
  holder_check =
      compare_numeric "holder_ledger_sum_vs_susdp_supply"
        (if_complete holder_history_complete end_susdp_supply)
        (if_complete holder_history_complete holder_balance_sum) (pos 0)
        (("holderHistoryComplete", truth holder_history_complete) ∷ [])

  abbrev pub conversion_check : ReconciliationResult
  conversion_check =
      compare_numeric "convert_to_assets_total_supply_vs_total_assets" end_total_assets
        converted_total_supply_assets (pos 1) []

  abbrev pub ypo_check : ReconciliationResult
  ypo_check =
      compare_numeric "ypo_event_pending_vs_rate_integration" rate_integrated_ypo native_ypo (pos 1)
        []

  abbrev pub head_check : ReconciliationResult
  head_check =
      compare_numeric "indexed_head_vs_requested_finalized_head" (some requested_to_block)
        indexed_through_block (pos 0) []

  unfoldable pub evaluate_core_reconciliations : List ReconciliationResult
  unfolding reconcile_delta compare_numeric
  evaluate_core_reconciliations =
      usdp_supply_check ∷ susdp_supply_check ∷ underlying_check ∷ conversion_check ∷ holder_check
      ∷ ypo_check ∷ head_check ∷ []
