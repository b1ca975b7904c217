-- ===== src/History.antt =====
-- src/analytics/savings-history.ts: `reuseSavingsHistoryCoverage`.
pub mod Reused
use parallel_usdp_hyperevm_i.Prelude.{
  ℕ, String, Bool, true, false, not, ◌&&◌, ◌==◌, ltb, List, [], ◌∷◌, ◌++◌, any, filter, map, Result,
  ok, err, ◌>>=◌, if◌then◌else◌,
}
use text.Mathlib.Text.{◌==◌ as str_eq}
use parallel_usdp_hyperevm_i.Planner.{PlanError}
use parallel_usdp_hyperevm_i.Status.{CoverageRow, Coverage, selected, verify_coverage}

pub data ReuseError : Type 0 where
  bad_range : PlanError → ReuseError
  reused_incomplete : ReuseError

pub data ReuseOutcome : Type 0 where
  source_coverage_incomplete : Coverage → ReuseOutcome
  reused : Coverage → Coverage → ReuseOutcome

abbrev pub or_bad_range : Result PlanError Coverage → Result ReuseError Coverage
or_bad_range (ok coverage) = ok coverage
or_bad_range (err error) = err (bad_range error)

abbrev pub greatest : ℕ → ℕ → ℕ
greatest a b = if ltb a b then b else a

abbrev pub least : ℕ → ℕ → ℕ
least a b = if ltb a b then a else b

-- The copy of a row, cut to the range. Its run and its time are the source row's.
abbrev pub clipped : String → ℕ → ℕ → CoverageRow → CoverageRow
clipped target_scope from_block to_block row = record {
  chain_id = row.chain_id;
  scope = target_scope;
  from_block = greatest row.from_block from_block;
  to_block = least row.to_block to_block;
}

abbrev pub same_row : CoverageRow → CoverageRow → Bool
same_row a b =
    a.chain_id == b.chain_id
    && str_eq a.scope b.scope
    && a.from_block == b.from_block
    && a.to_block == b.to_block

-- `on conflict (chain_id, scope, from_block, to_block) do nothing`
unfoldable pub insert_rows : List CoverageRow → List CoverageRow → List CoverageRow
insert_rows [] table = table
insert_rows (row ∷ rows) table =
    insert_rows rows (if any (same_row row) table then table else table ++ row ∷ [])

unfoldable pub copy_coverage : String → String → ℕ → ℕ → ℕ → List CoverageRow → List CoverageRow
unfolding insert_rows
copy_coverage source_scope target_scope from_block to_block chain_id table =
    insert_rows
      (map (clipped target_scope from_block to_block)
        (filter (selected chain_id source_scope from_block to_block) table))
      table

abbrev pub after_copy : String → String → ℕ → ℕ → ℕ → List CoverageRow → List CoverageRow
after_copy source_scope target_scope from_block to_block chain_id table =
    if not (str_eq source_scope target_scope)
    then copy_coverage source_scope target_scope from_block to_block chain_id table
    else table

-- The check of the target scope, after the copy.
abbrev pub verify_copy :
    Coverage
    → List CoverageRow
    → String
    → ℕ
    → ℕ
    → ℕ
    → Result ReuseError (ReuseOutcome × List CoverageRow)
verify_copy source_coverage after target_scope from_block to_block chain_id =
    or_bad_range (verify_coverage after target_scope from_block to_block chain_id)
    >>= λ target_coverage.
        if not target_coverage.complete
        then err reused_incomplete
        else ok (reused source_coverage target_coverage, after)

unfoldable pub reuse_savings_history_coverage :
    String
    → String
    → ℕ
    → ℕ
    → ℕ
    → List CoverageRow
    → Result ReuseError (ReuseOutcome × List CoverageRow)
unfolding verify_coverage copy_coverage
reuse_savings_history_coverage source_scope target_scope from_block to_block chain_id table =
    or_bad_range (verify_coverage table source_scope from_block to_block chain_id)
    >>= λ source_coverage.
        if not source_coverage.complete
        then ok (source_coverage_incomplete source_coverage, table)
        else verify_copy source_coverage
            (after_copy source_scope target_scope from_block to_block chain_id table) target_scope
            from_block to_block chain_id
