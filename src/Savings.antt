-- ===== src/Savings.antt =====
-- src/protocol/savings-math.ts, over amounts, rates and times that are not negative.
pub mod Growth
pub mod Segments
pub mod Reconcile
pub mod Resolve
pub mod Recorded
use parallel_usdp_hyperevm_i.Prelude.{
  ℕ, ◌+◌, ◌-◌, ◌*◌, ◌/◌, ◌||◌, ◌==◌, ltb, if◌then◌else◌, Result, ok, err,
}
use parallel_usdp_hyperevm_i.Prelude.Int.{ℤ, pos, negsuc, ◌-ℤ◌}

abbrev pub base_27 : ℕ
base_27 = 1000000000000000000000000000

abbrev pub half_base_27 : ℕ
half_base_27 = base_27 / 2

abbrev pub base_power_two : ℕ → ℕ
base_power_two rate_per_second = (rate_per_second * rate_per_second + half_base_27) / base_27

abbrev pub base_power_three : ℕ → ℕ
base_power_three rate_per_second =
    (base_power_two rate_per_second * rate_per_second + half_base_27) / base_27

abbrev pub exp_minus_two : ℕ → ℕ
exp_minus_two elapsed_seconds = if ltb 2 elapsed_seconds then elapsed_seconds - 2 else 0

-- The factor in the source's last expression.
unfoldable pub growth : ℕ → ℕ → ℕ
growth rate_per_second elapsed_seconds =
    let exp_minus_one = elapsed_seconds - 1 in
    let second_term = elapsed_seconds * exp_minus_one * base_power_two rate_per_second / 2 in
    let third_term =
      elapsed_seconds
      * exp_minus_one
      * exp_minus_two elapsed_seconds
      * base_power_three rate_per_second
      / 6 in
    base_27 + rate_per_second * elapsed_seconds + second_term + third_term

unfoldable pub compute_updated_assets : ℕ → ℕ → ℕ → ℕ
unfolding growth
compute_updated_assets current_balance rate_per_second elapsed_seconds =
    if elapsed_seconds == 0 || rate_per_second == 0
    then current_balance
    else current_balance * growth rate_per_second elapsed_seconds / base_27

pub data SavingsError : Type 0 where
  negative_pending_yield negative_ypo : SavingsError

unfoldable pub calculate_pending_yield : ℕ → ℕ → Result SavingsError ℕ
calculate_pending_yield total_assets actual_asset_balance =
    if ltb total_assets actual_asset_balance
    then err negative_pending_yield
    else ok (total_assets - actual_asset_balance)

-- The value and its sign are one test here: the sum on the left is at least the amount taken off.
unfoldable pub calculate_native_ypo : ℕ → ℕ → ℕ → Result SavingsError ℕ
calculate_native_ypo accrued_interest pending_yield_at_start pending_yield_at_end =
    elim (pos (accrued_interest + pending_yield_at_end) -ℤ pos pending_yield_at_start) [
      | pos value ↦ ok value
      | negsuc _ ↦ err negative_ypo
    ]
