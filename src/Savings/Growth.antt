-- ===== src/Savings/Growth.antt =====
-- `computeUpdatedAssets` never loses assets, and grows with time.
use parallel_usdp_hyperevm_i.Prelude.{
  refl, ℕ, ◌-◌, ◌*◌, ◌/◌, ◌≤◌, ◌≡◌, arith, true, false, ◌||◌, ◌==◌, inl, inr, Bool-cases,
}
use native.Mathlib.Nat.{mul-le-mul, mul-le-mul_left, mul-le-mul_right}
use parallel_usdp_hyperevm_i.Savings.{
  base_27, base_power_two, base_power_three, exp_minus_two, growth, compute_updated_assets,
}

exp_minus_two_mono : (e e' : ℕ) → e ≤ e' → exp_minus_two e ≤ exp_minus_two e'
exp_minus_two_mono e e' h = ground arith

-- Rates that are zero or not, the factor grows with time.
growth_mono : (rate e e' : ℕ) → e ≤ e' → growth rate e ≤ growth rate e'
unfolding growth
growth_mono rate e e' h =
    let first = mul-le-mul_left rate h in
    let pair : e * (e - 1) ≤ e' * (e' - 1) = mul-le-mul h (omega arith) in
    let second = mul-le-mul_right (base_power_two rate) pair in
    let third =
      mul-le-mul_right (base_power_three rate) (mul-le-mul pair (exp_minus_two_mono e e' h)) in
    omega (arith, first, second, third)

base-le-growth : (rate e : ℕ) → base_27 ≤ growth rate e
unfolding growth
base-le-growth rate e = omega arith

scaled_mono : (balance g g' : ℕ) → g ≤ g' → balance * g / base_27 ≤ balance * g' / base_27
scaled_mono balance g g' h = let more = mul-le-mul_left balance h in omega (arith, more)

le-scaled : (balance g : ℕ) → base_27 ≤ g → balance ≤ balance * g / base_27
le-scaled balance g h = let more = mul-le-mul_left balance h in omega (arith, more)

unchanged_lem :
    (balance rate e : ℕ)
    → (e == 0 || rate == 0) ≡ true
    → compute_updated_assets balance rate e ≡ balance
unfolding compute_updated_assets
unchanged_lem balance rate e h = rw h refl

grown_lem :
    (balance rate e : ℕ)
    → (e == 0 || rate == 0) ≡ false
    → compute_updated_assets balance rate e ≡ balance * growth rate e / base_27
unfolding compute_updated_assets
grown_lem balance rate e h = rw h refl

le-compute_updated_assets : (balance rate e : ℕ) → balance ≤ compute_updated_assets balance rate e
le-compute_updated_assets balance rate e = elim (Bool-cases (e == 0 || rate == 0)) [
  | inl still ↦ omega (arith, unchanged_lem balance rate e still)
  | inr moved ↦
      rw (grown_lem balance rate e moved)
        (le-scaled balance (growth rate e) (base-le-growth rate e))
]

still_moving :
    (rate e e' : ℕ) → e ≤ e' → (e == 0 || rate == 0) ≡ false → (e' == 0 || rate == 0) ≡ false
still_moving rate e e' h moved = ground arith

-- Updated assets are never less than the balance, and do not become less with more elapsed time.
pub compute_updated_assets-le :
    (balance rate e e' : ℕ)
    → e ≤ e'
    → (balance ≤ compute_updated_assets balance rate e)
      × (compute_updated_assets balance rate e ≤ compute_updated_assets balance rate e')
compute_updated_assets-le balance rate e e' h = (
  le-compute_updated_assets balance rate e,
  elim (Bool-cases (e == 0 || rate == 0)) [
    | inl still ↦
        rw (unchanged_lem balance rate e still) (le-compute_updated_assets balance rate e')
    | inr moved ↦
        rw
          (
            grown_lem balance rate e moved,
            grown_lem balance rate e' (still_moving rate e e' h moved),
          )
          (scaled_mono balance (growth rate e) (growth rate e') (growth_mono rate e e' h))
  ],
)
