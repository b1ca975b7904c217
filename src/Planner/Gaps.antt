-- ===== src/Planner/Gaps.antt =====
-- `coverageGaps` against the set of blocks that ranges cover.
use parallel_usdp_hyperevm_i.Prelude.{
  ℕ, ◌+◌, ◌≡◌, Bool, true, false, not, ◌&&◌, ◌||◌, List, [], ◌∷◌, arith, ltb, leb, if◌then◌else◌,
  inl, inr, Bool-cases, All, subst, ok, ok-injective, larger,
}
use parallel_usdp_hyperevm_i.Planner.{
  gap_before, closing_gap, BlockRange, merge_coverage, gaps_from, coverage_gaps,
}
use parallel_usdp_hyperevm_i.Planner.Coverage.{
  covered, IsOrdered, IsMerged, not-covered_of_StartsAt, covered-merge_coverage,
  merge_coverage-IsMerged,
}

-- The loop: a block is in a gap exactly if it lies between the cursor and the end, uncovered.
covered-gaps_from :
    (b to_block cursor : ℕ) (ranges : List BlockRange)
    → IsMerged ranges
    → covered b (gaps_from to_block cursor ranges)
      ≡ (leb cursor b && leb b to_block && not (covered b ranges))
unfolding gaps_from
covered-gaps_from b to_block cursor [] m = ground arith
covered-gaps_from b to_block cursor (range ∷ rest) m =
    elim (Bool-cases (ltb range.to_block cursor || ltb to_block range.from_block)) [
      | inl skip ↦
          rw (skip, gaps_from) (ground (arith, covered-gaps_from b to_block cursor rest m.2))
      | inr met ↦
          rw (met, gaps_from)
            (ground (
              arith,
              not-covered_of_StartsAt b (range.to_block + 2) rest m.1,
              covered-gaps_from b to_block (larger cursor (range.to_block + 1)) rest m.2,
            ))
    ]

-- A block is in a gap that is reported exactly if it lies in the requested interval and no range
-- covers it, provided that the given ranges are not reversed.
pub covered-coverage_gaps :
    (b from_block to_block : ℕ) (ranges gaps : List BlockRange)
    → All IsOrdered ranges
    → coverage_gaps ranges from_block to_block ≡ ok gaps
    → covered b gaps ≡ (leb from_block b && leb b to_block && not (covered b ranges))
unfolding coverage_gaps
covered-coverage_gaps b from_block to_block ranges gaps o h = ground (
  arith,
  covered-gaps_from b to_block from_block (merge_coverage ranges)
      (merge_coverage-IsMerged ranges o),
  covered-merge_coverage b ranges o,
)

IsOrdered-closing_gap : (to_block cursor : ℕ) → All IsOrdered (closing_gap to_block cursor)
IsOrdered-closing_gap to_block cursor = elim (Bool-cases (leb cursor to_block)) [
  | inl open_end ↦ rw open_end (ground arith, tt)
  | inr full ↦ rw full tt
]

IsOrdered-gap_before :
    (cursor : ℕ) (range : BlockRange) (rest : List BlockRange)
    → All IsOrdered rest
    → All IsOrdered (gap_before cursor range rest)
IsOrdered-gap_before cursor range rest h = elim (Bool-cases (ltb cursor range.from_block)) [
  | inl behind ↦ rw behind (ground arith, h)
  | inr at_once ↦ rw at_once h
]

IsOrdered-if :
    (b : Bool) (gaps others : List BlockRange)
    → All IsOrdered gaps
    → All IsOrdered others
    → All IsOrdered (if b then gaps else others)
IsOrdered-if true gaps others h k = h
IsOrdered-if false gaps others h k = k

-- A gap is never empty.
pub IsOrdered-gaps_from :
    (to_block cursor : ℕ) (ranges : List BlockRange)
    → All IsOrdered (gaps_from to_block cursor ranges)
unfolding gaps_from
IsOrdered-gaps_from to_block cursor [] = IsOrdered-closing_gap to_block cursor
IsOrdered-gaps_from to_block cursor (range ∷ rest) =
    elim (Bool-cases (ltb range.to_block cursor || ltb to_block range.from_block)) [
      | inl skip ↦ rw (skip, gaps_from) (IsOrdered-gaps_from to_block cursor rest)
      | inr met ↦
          let next = larger cursor (range.to_block + 1) in
          rw (met, gaps_from)
            (IsOrdered-gap_before cursor range _ (
              IsOrdered-if (ltb to_block next) _ _ (IsOrdered-closing_gap to_block next)
                (IsOrdered-gaps_from to_block next rest)))
    ]

pub IsOrdered-coverage_gaps :
    (ranges gaps : List BlockRange) (from_block to_block : ℕ)
    → coverage_gaps ranges from_block to_block ≡ ok gaps
    → All IsOrdered gaps
unfolding coverage_gaps
IsOrdered-coverage_gaps ranges gaps from_block to_block h =
    elim (Bool-cases (ltb to_block from_block)) [
      | inl bad ↦ cc (rw bad at h)
      | inr good ↦
          subst (All IsOrdered) (ok-injective (rw good at h))
            (IsOrdered-gaps_from to_block from_block (merge_coverage ranges))
    ]

-- A range that is not empty covers its own first block.
pub covered_first :
    (range : BlockRange) (rest : List BlockRange)
    → IsOrdered range
    → covered range.from_block (range ∷ rest) ≡ true
covered_first range rest h = ground arith
