-- ===== src/Planner.antt =====
-- src/indexer/planner.ts: chunks of a block range, the policy on provider errors, and block
-- coverage. Block numbers are `bigint`s that the callers never make negative, so they are natural
-- numbers.
pub mod Coverage
pub mod Gaps
pub mod Chunk
use parallel_usdp_hyperevm_i.Prelude.{
  ℕ, ◌+◌, ◌-◌, ◌/◌, Bool, true, false, ◌&&◌, ◌||◌, List, [], ◌∷◌, ltb, leb, if◌then◌else◌, larger,
  sort_by, Result, ok, err, any,
}

pub record BlockRange : Type 0 where
  pub from_block : ℕ
  pub to_block : ℕ

pub data RpcErrorClass : Type 0 where
  range_limit rate_limit transient fatal : RpcErrorClass

-- What `planBlockRange` and `coverageGaps` throw.
pub data PlanError : Type 0 where
  bad_chunk_size bad_order : PlanError

-- `chunkSize < 1 || !Number.isInteger(chunkSize)`: a chunk size is a natural number here, so zero
-- is the only refused one.
unfoldable pub plan_block_range : ℕ → ℕ → ℕ → Result PlanError BlockRange
plan_block_range from_block to_block chunk_size =
    if ltb chunk_size 1
    then err bad_chunk_size
    else if ltb to_block from_block
    then err bad_order
    else (let planned_to = from_block + chunk_size - 1 in
        ok (record {
          from_block = from_block;
          to_block = if ltb to_block planned_to then to_block else planned_to;
        }))

unfoldable pub reduce_chunk_size : ℕ → ℕ
reduce_chunk_size chunk_size = if leb chunk_size 1 then 1 else larger 1 (chunk_size / 2)

-- The comparator of `mergeCoverage`: `a` comes before `b`.
abbrev pub starts_before : BlockRange → BlockRange → Bool
starts_before a b = ltb a.from_block b.from_block

-- The loop of `mergeCoverage`: `previous` is `merged.at(-1)`, which only the loop still changes.
unfoldable pub merge_onto : BlockRange → List BlockRange → List BlockRange
merge_onto previous [] = previous ∷ []
merge_onto previous (range ∷ rest) = elim (ltb (previous.to_block + 1) range.from_block) [
  | true ↦ previous ∷ merge_onto range rest
  | false ↦ merge_onto (record previous { to_block = larger previous.to_block range.to_block }) rest
]

unfoldable pub merge_sorted : List BlockRange → List BlockRange
unfolding merge_onto
merge_sorted [] = []
merge_sorted (range ∷ rest) = merge_onto range rest

unfoldable pub merge_coverage : List BlockRange → List BlockRange
unfolding merge_sorted
merge_coverage ranges = merge_sorted (sort_by starts_before ranges)

-- The gap that is left between the cursor and a range which begins behind it.
abbrev pub gap_before : ℕ → BlockRange → List BlockRange → List BlockRange
gap_before cursor range rest =
    if ltb cursor range.from_block
    then record { from_block = cursor; to_block = range.from_block - 1 } ∷ rest
    else rest

abbrev pub closing_gap : ℕ → ℕ → List BlockRange
closing_gap to_block cursor =
    if leb cursor to_block then record { from_block = cursor; to_block = to_block } ∷ [] else []

-- The loop of `coverageGaps` and the statement behind it.
unfoldable pub gaps_from : ℕ → ℕ → List BlockRange → List BlockRange
gaps_from to_block cursor [] = closing_gap to_block cursor
gaps_from to_block cursor (range ∷ rest) =
    elim (ltb range.to_block cursor || ltb to_block range.from_block) [
      | true ↦ gaps_from to_block cursor rest
      | false ↦
          let next = larger cursor (range.to_block + 1) in
          let later = gaps_from to_block next rest in
          gap_before cursor range (if ltb to_block next then closing_gap to_block next else later)
    ]

unfoldable pub coverage_gaps : List BlockRange → ℕ → ℕ → Result PlanError (List BlockRange)
unfolding gaps_from merge_coverage
coverage_gaps ranges from_block to_block =
    if ltb to_block from_block
    then err bad_order
    else ok (gaps_from to_block from_block (merge_coverage ranges))

-- `shouldRetryRpcError`
abbrev pub is_rate_limit : RpcErrorClass → Bool
is_rate_limit rate_limit = true
is_rate_limit _ = false

abbrev pub is_transient : RpcErrorClass → Bool
is_transient transient = true
is_transient _ = false

unfoldable pub should_retry_rpc_error : RpcErrorClass → ℕ → ℕ → Bool → Bool
should_retry_rpc_error error_class attempt max_retries retry_rate_limits_indefinitely =
    if is_rate_limit error_class && retry_rate_limits_indefinitely
    then true
    else (is_rate_limit error_class || is_transient error_class) && ltb attempt max_retries
