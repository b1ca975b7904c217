-- ===== src/Status.antt =====
-- src/indexer/status.ts: `verifyCoverage`, which every calculation over a block range asks first.
pub mod Complete
use parallel_usdp_hyperevm_i.Prelude.{
  ℕ, String, Bool, true, false, ◌&&◌, List, [], ◌∷◌, map, leb, ◌==◌, filter, length, Result, ok,
  err, ◌>>=◌, sort_by,
}
use text.Mathlib.Text.{◌==◌ as str_eq}
use parallel_usdp_hyperevm_i.Planner.{BlockRange, PlanError, starts_before, coverage_gaps}

-- A row of the table `indexer_coverage`.
pub record CoverageRow : Type 0 where
  pub chain_id : ℕ
  pub scope : String
  pub from_block : ℕ
  pub to_block : ℕ

pub record Coverage : Type 0 where
  pub complete : Bool
  pub range_rows : ℕ
  pub gaps : List BlockRange

-- `chain_id = $1 and scope = $2 and to_block >= $3 and from_block <= $4`
abbrev pub selected : ℕ → String → ℕ → ℕ → CoverageRow → Bool
selected chain_id scope from_block to_block row =
    row.chain_id == chain_id
    && str_eq row.scope scope
    && leb from_block row.to_block
    && leb row.from_block to_block

abbrev pub block_range : CoverageRow → BlockRange
block_range row = record { from_block = row.from_block; to_block = row.to_block }

-- `gaps.length === 0`
abbrev pub is_empty : List BlockRange → Bool
is_empty [] = true
is_empty (_ ∷ _) = false

unfoldable pub verify_coverage : List CoverageRow → String → ℕ → ℕ → ℕ → Result PlanError Coverage
unfolding coverage_gaps
verify_coverage table scope from_block to_block chain_id =
    let ranges =
      sort_by starts_before
        (map block_range (filter (selected chain_id scope from_block to_block) table)) in
    coverage_gaps ranges from_block to_block >>= λ gaps.
    ok (record { complete = is_empty gaps; range_rows = length ranges; gaps = gaps })
