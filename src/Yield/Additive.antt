-- ===== src/Yield/Additive.antt =====
-- The yields of two windows that meet sum to the yield of the whole window.
use parallel_usdp_hyperevm_i.Prelude.{ap, ℕ, ◌≡◌, ◌≤◌, ◌+◌, List, [], ◌∷◌, ok, arith}
use parallel_usdp_hyperevm_i.Prelude.Int.{◌-ℤ◌}
use parallel_usdp_hyperevm_i.Savings.{calculate_native_ypo}
use parallel_usdp_hyperevm_i.Yield.Stored.{IsCandidateOf-calculate}
use parallel_usdp_hyperevm_i.Yield.{
  SnapshotRow, Coverage, YieldOptions, Tables, YieldRow, EventRow, accrued_interest_of,
  calculate_savings_yield_for_range, yield_candidate,
}

-- The interest of two adjoining ranges of blocks.
accrued_interest_of-join :
    (chain_id a b c : ℕ) (events : List EventRow)
    → a ≤ b
    → b ≤ c
    → accrued_interest_of chain_id a b events + accrued_interest_of chain_id b c events
      ≡ accrued_interest_of chain_id a c events
accrued_interest_of-join chain_id a b c [] h k = omega arith
accrued_interest_of-join chain_id a b c (e ∷ events) h k =
    let rest = accrued_interest_of-join chain_id a b c events h k in ground (arith, rest)

calculate_native_ypo_lem :
    (accrued start end ypo : ℕ)
    → calculate_native_ypo accrued start end ≡ ok ypo
    → ypo + start ≡ accrued + end
unfolding calculate_native_ypo ◌-ℤ◌
calculate_native_ypo_lem accrued start end ypo h = ground arith

abbrev pub window : YieldOptions → ℕ → ℕ → YieldOptions
window options from_block to_block = record options { from_block = from_block; to_block = to_block }

-- Over the same tables, the candidate yields of two ranges that meet in a block sum to the
-- candidate yield of the whole range.
pub calculate_savings_yield_for_range-additive :
    (options : YieldOptions) (tables : Tables) (a b c : ℕ) (id now id' now' id'' now'' : ℕ)
    (stored stored' stored'' : List YieldRow) (sid sid' sid'' : ℕ)
    (coverage coverage' coverage'' : Coverage) (left right whole : YieldRow)
    (after after' after'' : List YieldRow)
    → calculate_savings_yield_for_range (window options a b) tables id now stored
      ≡ ok (yield_candidate sid coverage left, after)
    → calculate_savings_yield_for_range (window options b c) tables id' now' stored'
      ≡ ok (yield_candidate sid' coverage' right, after')
    → calculate_savings_yield_for_range (window options a c) tables id'' now'' stored''
      ≡ ok (yield_candidate sid'' coverage'' whole, after'')
    → left.native_ypo + right.native_ypo ≡ whole.native_ypo
calculate_savings_yield_for_range-additive options tables a b c id now id' now' id'' now'' stored
      stored' stored'' sid sid' sid'' coverage coverage' coverage'' left right whole after after'
      after'' h h' h'' =
    let (f, (o, _)) =
      IsCandidateOf-calculate (window options a b) tables id now stored sid coverage left after h in
    let (f', (o', _)) =
      IsCandidateOf-calculate (window options b c) tables id' now' stored' sid' coverage' right
        after' h' in
    let (f'', _) =
      IsCandidateOf-calculate (window options a c) tables id'' now'' stored'' sid'' coverage'' whole
        after'' h'' in
    let join =
      accrued_interest_of-join options.chain_id a b c tables.events (omega arith) (omega arith) in
    let one = calculate_native_ypo_lem _ _ _ _ f.ypo in
    let two = calculate_native_ypo_lem _ _ _ _ f'.ypo in
    let three = calculate_native_ypo_lem _ _ _ _ f''.ypo in
    let same_start : f.start ≡ f''.start = cc (f.start_found, f''.start_found) in
    let same_middle : f.end ≡ f'.start = cc (f.end_found, f'.start_found) in
    let same_end : f'.end ≡ f''.end = cc (f'.end_found, f''.end_found) in
    let pending : SnapshotRow → ℕ = λ s. s.susdp_pending_yield in
    omega (
      arith,
      join,
      one,
      two,
      three,
      ap pending same_start,
      ap pending same_middle,
      ap pending same_end,
    )
