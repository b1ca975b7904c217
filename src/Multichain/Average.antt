-- ===== src/Multichain/Average.antt =====
-- The weighted yearly rate of a global savings snapshot lies between its components' rates.
use parallel_usdp_hyperevm_i.Prelude.{
  All-filter, ℕ, ◌*◌, ◌≤◌, List, [], ◌∷◌, Option, none, some, ◌≡◌, All, ◌==◌, arith, Bool-cases,
  inl, inr,
}
use native.Mathlib.Nat.{mul-le-mul_left, le-div_iff_mul-le, div-le_of_le-mul}
use parallel_usdp_hyperevm_i.Multichain.{
  included_of, stale_of, SavingsAggregationComponent, aggregate_savings_components, weighted_apy,
  total_assets,
}

abbrev pub IsBetween : ℕ → ℕ → SavingsAggregationComponent → Type 0
IsBetween low high component =
    (low ≤ component.susdp_estimated_apy) × (component.susdp_estimated_apy ≤ high)

weighted_bounds :
    (low high : ℕ) (xs : List SavingsAggregationComponent)
    → All (IsBetween low high) xs
    → (low * total_assets xs ≤ weighted_apy xs) × (weighted_apy xs ≤ high * total_assets xs)
weighted_bounds low high [] h = (omega arith, omega arith)
weighted_bounds low high (x ∷ xs) h =
    let (least, most) = weighted_bounds low high xs h.1 in
    let above = mul-le-mul_left x.susdp_total_assets h.0.0 in
    let below = mul-le-mul_left x.susdp_total_assets h.0.1 in
    (omega (arith, least, above), omega (arith, most, below))

-- There is an average unless there are no assets.
abbrev pub AverageIsBetween : ℕ → ℕ → ℕ → Option ℕ → Type 0
AverageIsBetween low high total none = total ≡ 0
AverageIsBetween low high total (some average) = (low ≤ average) × (average ≤ high)

-- If every component's yearly rate lies between two bounds, so does the weighted rate, which is
-- given unless the included components have no assets.
pub aggregate_savings_components-between :
    (components : List SavingsAggregationComponent) (expected : List ℕ) (as_of age low high : ℕ)
    → All (IsBetween low high) components
    → (let aggregate = aggregate_savings_components components expected as_of age in
        AverageIsBetween low high aggregate.susdp_total_assets aggregate.weighted_estimated_apy)
unfolding aggregate_savings_components
aggregate_savings_components-between components expected as_of age low high h =
    let included = included_of (stale_of as_of age components) components in
    let (least, most) =
      weighted_bounds low high included (All-filter (IsBetween low high) _ components h) in
    elim (Bool-cases (total_assets included == 0)) [
      | inl e ↦ rw e (ground arith)
      | inr e ↦ rw e (
        (le-div_iff_mul-le {k = total_assets included} (ground arith)).1 least,
        div-le_of_le-mul (total_assets included) (omega (arith, most)),
      )
    ]
