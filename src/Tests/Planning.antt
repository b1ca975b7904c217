-- ===== src/Tests/Planning.antt =====
-- Coverage, chunks and retries at small block ranges.
use parallel_usdp_hyperevm_i.Prelude.{
  ℕ, ◌+◌, ◌≤◌, ◌<◌, ◌≡◌, ◌↔◌, refl, Bool, true, false, not, ◌&&◌, List, [], ◌∷◌, arith, leb, ok,
  Result, All,
}
use parallel_usdp_hyperevm_i.Planner.{BlockRange, plan_block_range, merge_coverage, coverage_gaps}
use parallel_usdp_hyperevm_i.Planner.Chunk.{plan_block_range_bounds}
use parallel_usdp_hyperevm_i.Planner.Coverage.{
  IsOrdered, IsMerged, covered, covered-merge_coverage, merge_coverage-IsMerged,
}
use parallel_usdp_hyperevm_i.Planner.Gaps.{covered-coverage_gaps}
use parallel_usdp_hyperevm_i.Status.{CoverageRow, Coverage, verify_coverage}
use parallel_usdp_hyperevm_i.Status.Complete.{IsOrderedRow, Missing, verify_coverage-complete}

abbrev range : ℕ → ℕ → BlockRange
range from_block to_block = record { from_block = from_block; to_block = to_block }

-- Unsorted, overlapping and adjacent ranges.
abbrev indexed : List BlockRange
indexed = range 30 39 ∷ range 10 19 ∷ range 15 24 ∷ range 25 26 ∷ []

indexed-IsOrdered : All IsOrdered indexed
indexed-IsOrdered = omega arith

indexed_merged : merge_coverage indexed ≡ range 10 26 ∷ range 30 39 ∷ []
unfolding merge_coverage parallel_usdp_hyperevm_i.Prelude.sort_by
indexed_merged = refl

indexed_gaps : coverage_gaps indexed 5 45 ≡ ok (range 5 9 ∷ range 27 29 ∷ range 40 45 ∷ [])
unfolding coverage_gaps parallel_usdp_hyperevm_i.Prelude.sort_by
indexed_gaps = refl

planned : plan_block_range 10 25 10 ≡ ok (range 10 19)
unfolding plan_block_range
planned = refl

plan_block_range_bounds_example :
    (range 10 19).from_block ≡ 10
    × (10 ≤ (range 10 19).to_block)
    × ((range 10 19).to_block ≤ 25)
    × ((range 10 19).to_block < 10 + 10)
    × ((range 10 19).to_block < 25 → (range 10 19).to_block + 1 ≡ 10 + 10)
plan_block_range_bounds_example = plan_block_range_bounds 10 25 10 (range 10 19) planned

covered-merge_coverage_example : covered 26 (merge_coverage indexed) ≡ covered 26 indexed
covered-merge_coverage_example = covered-merge_coverage 26 indexed indexed-IsOrdered

merge_coverage-IsMerged_example : IsMerged (merge_coverage indexed)
merge_coverage-IsMerged_example = merge_coverage-IsMerged indexed indexed-IsOrdered

covered-coverage_gaps_example :
    covered 28 (range 5 9 ∷ range 27 29 ∷ range 40 45 ∷ [])
    ≡ (leb 5 28 && leb 28 45 && not (covered 28 indexed))
covered-coverage_gaps_example =
    covered-coverage_gaps 28 5 45 indexed (range 5 9 ∷ range 27 29 ∷ range 40 45 ∷ [])
      indexed-IsOrdered indexed_gaps

abbrev row : ℕ → ℕ → CoverageRow
row from_block to_block = record {
  chain_id = 8453;
  scope = "base";
  from_block = from_block;
  to_block = to_block;
}

abbrev table : List CoverageRow
table = row 10 19 ∷ record (row 0 99) { scope = "other" } ∷ row 20 29 ∷ []

abbrev table_coverage : Coverage
table_coverage = record { complete = true; range_rows = 2; gaps = [] }

table-IsOrderedRow : All IsOrderedRow table
table-IsOrderedRow = omega arith

table_verified : verify_coverage table "base" 12 28 8453 ≡ ok table_coverage
unfolding verify_coverage parallel_usdp_hyperevm_i.Prelude.sort_by
table_verified = refl

verify_coverage-complete_example :
    (table_coverage.complete ≡ true) ↔ ((b : ℕ) → ¬ Missing 8453 "base" 12 28 table b)
verify_coverage-complete_example =
    verify_coverage-complete 8453 "base" 12 28 table table_coverage table-IsOrderedRow
      table_verified
