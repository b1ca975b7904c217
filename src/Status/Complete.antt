-- ===== src/Status/Complete.antt =====
-- Coverage is complete exactly if no block of the range is missing.
use parallel_usdp_hyperevm_i.Prelude.{
  subst, leb, not, ok, sort_by, any-sort_by, All-sort_by, ◌↔◌, >>=-eq-ok, ℕ, String, ◌≤◌, ◌≡◌, refl,
  Bool, true, false, ◌&&◌, List, [], ◌∷◌, map, arith, any, All, filter, inl, inr, Bool-cases, ◌==◌,
}
use parallel_usdp_hyperevm_i.Planner.{BlockRange, starts_before, coverage_gaps}
use parallel_usdp_hyperevm_i.Planner.Coverage.{IsOrdered, contains, covered}
use parallel_usdp_hyperevm_i.Planner.Gaps.{
  covered-coverage_gaps, IsOrdered-coverage_gaps, covered_first,
}
use parallel_usdp_hyperevm_i.Status.{
  CoverageRow, Coverage, selected, block_range, is_empty, verify_coverage,
}
use text.Mathlib.Text.{◌==◌ as str_eq}

abbrev pub IsOrderedRow : CoverageRow → Type 0
IsOrderedRow row = row.from_block ≤ row.to_block

-- A row of the chain and the scope covers the block `b`.
abbrev pub row_covers : ℕ → String → ℕ → CoverageRow → Bool
row_covers chain_id scope b row =
    row.chain_id == chain_id && str_eq row.scope scope && contains b (block_range row)

module _ (chain_id : ℕ) (scope : String) (from_block to_block : ℕ) where
  abbrev rows : List CoverageRow → List BlockRange
  rows table = map block_range (filter (selected chain_id scope from_block to_block) table)

  rows-IsOrdered : (table : List CoverageRow) → All IsOrderedRow table → All IsOrdered (rows table)
  rows-IsOrdered [] h = tt
  rows-IsOrdered (row ∷ table) h =
      elim (Bool-cases (selected chain_id scope from_block to_block row)) [
        | inl taken ↦ rw taken (h.0, rows-IsOrdered table h.1)
        | inr left_out ↦ rw left_out (rows-IsOrdered table h.1)
      ]

  -- The query leaves out no row that covers a block of the range.
  covered-rows :
      (b : ℕ) (table : List CoverageRow)
      → from_block ≤ b
      → b ≤ to_block
      → covered b (rows table) ≡ any (row_covers chain_id scope b) table
  covered-rows b [] h k = refl
  covered-rows b (row ∷ table) h k = ground (arith, covered-rows b table h k)

  abbrev pub Missing : List CoverageRow → ℕ → Type 0
  Missing table b =
      (from_block ≤ b) × (b ≤ to_block) × (any (row_covers chain_id scope b) table ≡ false)

  -- A block is in a reported gap exactly if it is missing.
  covered-gaps :
      (b : ℕ) (table : List CoverageRow) (gaps : List BlockRange)
      → All IsOrderedRow table
      → coverage_gaps (sort_by starts_before (rows table)) from_block to_block ≡ ok gaps
      → (covered b gaps ≡ true) ↔ Missing table b
  covered-gaps b table gaps o h = (
    λ inside. (ground (arith, gap), ground (arith, gap), ground (arith, gap, same, in_rows)),
    λ missing. ground (arith, gap, same, in_rows),
  )
    where
      gap : covered b gaps ≡ (
          leb from_block b
          && leb b to_block
          && not (covered b (sort_by starts_before (rows table))))
      gap =
          covered-coverage_gaps b from_block to_block (sort_by starts_before (rows table)) gaps
            (All-sort_by starts_before IsOrdered (rows table) (rows-IsOrdered table o)) h

      same : covered b (sort_by starts_before (rows table)) ≡ covered b (rows table)
      same = any-sort_by starts_before (contains b) (rows table)

      in_rows :
          from_block ≤ b
          → b ≤ to_block
          → covered b (rows table) ≡ any (row_covers chain_id scope b) table
      in_rows = covered-rows b table

  gaps_complete :
      (table : List CoverageRow) (gaps : List BlockRange)
      → All IsOrderedRow table
      → coverage_gaps (sort_by starts_before (rows table)) from_block to_block ≡ ok gaps
      → (is_empty gaps ≡ true) ↔ ((b : ℕ) → ¬ Missing table b)
  gaps_complete table [] o h =
      (λ e b missing. cc ((covered-gaps b table [] o h).1 missing), λ none_missing. refl)
  gaps_complete table (gap ∷ rest) o h = (
    λ e. cc,
    λ none_missing. absurd (
        none_missing gap.from_block (
          (covered-gaps gap.from_block table (gap ∷ rest) o h).0
            (covered_first gap rest (IsOrdered-coverage_gaps _ _ from_block to_block h).0))),
  )

  -- Where no row is reversed, `verifyCoverage` says that coverage is complete exactly if every
  -- block of the requested range is covered by a row of the chain and the scope.
  pub verify_coverage-complete :
      (table : List CoverageRow) (coverage : Coverage)
      → All IsOrderedRow table
      → verify_coverage table scope from_block to_block chain_id ≡ ok coverage
      → (coverage.complete ≡ true) ↔ ((b : ℕ) → ¬ Missing table b)
  unfolding verify_coverage
  verify_coverage-complete table coverage o h =
      let (gaps, found, e) = >>=-eq-ok _ _ h in
      let same : is_empty gaps ≡ coverage.complete = cc e in
      subst (λ (b : Bool). (b ≡ true) ↔ ((n : ℕ) → ¬ Missing table n)) same
        (gaps_complete table gaps o found)
