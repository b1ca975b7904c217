-- ===== src/Savings/Reconcile/Exact.antt =====
-- What a verified window with a constant rate says of its boundaries.
use parallel_usdp_hyperevm_i.Prelude.{
  subst, sym, true, false, ◌||◌, inl, inr, Bool-cases, arith, ℕ, ◌≤◌, ◌≡◌,
}
use parallel_usdp_hyperevm_i.Prelude.Int.{ℤ, pos, pos_part, sub_ℕ, eq_ℤ, ltb_ℤ, eq_of_parts}
use parallel_usdp_hyperevm_i.Savings.{compute_updated_assets}
use parallel_usdp_hyperevm_i.Savings.Growth.{compute_updated_assets-le}
use parallel_usdp_hyperevm_i.Savings.Reconcile.{
  ReconciliationInput, ConstantRateCheck, checked, is_stable_basis, start_elapsed, end_elapsed,
  check_constant_rate, reconcile_constant_rate_window,
}

checked-injective : {a b : ConstantRateCheck} → checked a ≡ checked b → a ≡ b
checked-injective h = cc

eq_of_eq_ℤ : (a b : ℤ) → eq_ℤ a b ≡ true → b ≡ a
eq_of_eq_ℤ a b h = eq_of_parts b a (ground arith)

later_lem :
    (start end : ℤ)
    → (ltb_ℤ start (pos 0) || ltb_ℤ end start) ≡ false
    → pos_part start ≤ pos_part end
later_lem start end h = ground arith

-- What exactness means for the amounts at the boundaries.
pub record IsExact (input : ReconciliationInput) : Type 0 where
  pub ypo : input.native_ypo ≡ sub_ℕ input.total_assets_at_end input.total_assets_at_start
  pub grows : input.total_assets_at_start ≤ input.total_assets_at_end
  pub same_assets : input.actual_assets_at_start ≡ input.actual_assets_at_end
  pub same_rate : input.rate_at_start ≡ input.rate_at_end
  pub nothing_accrued : input.accrued_interest ≡ 0

stable_parts :
    (input : ReconciliationInput)
    → is_stable_basis input ≡ true
    → (input.actual_assets_at_start ≡ input.actual_assets_at_end)
      × (input.rate_at_start ≡ input.rate_at_end)
      × (input.accrued_interest ≡ 0)
stable_parts input h = (ground arith, ground arith, ground arith)

verified_parts :
    (input : ReconciliationInput) (predicted_start predicted_end : ℕ)
    → (check_constant_rate input predicted_start predicted_end).verified ≡ true
    → (predicted_start ≡ input.total_assets_at_start)
      × (predicted_end ≡ input.total_assets_at_end)
      × (input.native_ypo ≡ sub_ℕ predicted_end predicted_start)
verified_parts input predicted_start predicted_end h = (
  ground arith,
  ground arith,
  eq_of_eq_ℤ (sub_ℕ predicted_end predicted_start) input.native_ypo (ground arith),
)

IsExact-check :
    (input : ReconciliationInput) (start end : ℕ)
    → is_stable_basis input ≡ true
    → start ≤ end
    → (check_constant_rate input
        (compute_updated_assets input.actual_assets_at_start input.rate_at_start start)
        (compute_updated_assets input.actual_assets_at_end input.rate_at_end end)).verified
      ≡ true
    → IsExact input
IsExact-check input start end stable ordered h =
    let (same_actual, same_rate, none_accrued) = stable_parts input stable in
    let (at_start, at_end, same_ypo) =
      verified_parts input
        (compute_updated_assets input.actual_assets_at_start input.rate_at_start start)
        (compute_updated_assets input.actual_assets_at_end input.rate_at_end end) h in
    record {
      ypo = rw (sym at_start, sym at_end) same_ypo;
      grows =
          rw (sym at_start, sym at_end, sym same_actual, sym same_rate)
            (compute_updated_assets-le input.actual_assets_at_start input.rate_at_start start end
              ordered).1;
      same_assets = same_actual;
      same_rate = same_rate;
      nothing_accrued = none_accrued;
    }

-- A window with a constant rate that is verified has the difference of its total assets as its
-- yield, which is not negative, and its actual assets and rate have not changed and nothing has
-- accrued.
pub reconcile_constant_rate_window-IsExact :
    (input : ReconciliationInput) (check : ConstantRateCheck)
    → reconcile_constant_rate_window input ≡ checked check
    → check.verified ≡ true
    → IsExact input
unfolding reconcile_constant_rate_window
reconcile_constant_rate_window-IsExact input check h verified =
    elim (Bool-cases (is_stable_basis input)) [
      | inr changed ↦ cc (rw changed at h)
      | inl stable ↦
          elim (Bool-cases (
            ltb_ℤ (start_elapsed input) (pos 0)
            || ltb_ℤ (end_elapsed input) (start_elapsed input))) [
              | inl bad ↦ cc (rw (stable, bad) at h)
              | inr ordered ↦
                  IsExact-check input (pos_part (start_elapsed input))
                    (pos_part (end_elapsed input)) stable
                    (later_lem (start_elapsed input) (end_elapsed input) ordered)
                    (subst (λ (c : ConstantRateCheck). c.verified ≡ true)
                      (sym (checked-injective (rw (stable, ordered) at h))) verified)
            ]
    ]
