-- ===== src/Planner/Chunk.antt =====
-- What a planned chunk is, and that a refused size always shrinks.
use parallel_usdp_hyperevm_i.Prelude.{ℕ, ◌+◌, ◌≤◌, ◌<◌, ◌-◌, ◌≡◌, arith, ltb, if◌then◌else◌, ok}
use parallel_usdp_hyperevm_i.Planner.{BlockRange, plan_block_range, reduce_chunk_size}

-- A planned chunk begins at the requested block, is not empty, does not pass the requested end, has
-- at most `chunk_size` blocks, and stops short of the end only if it has exactly that many.
pub plan_block_range_bounds :
    (from_block to_block chunk_size : ℕ) (range : BlockRange)
    → plan_block_range from_block to_block chunk_size ≡ ok range
    → (range.from_block ≡ from_block)
      × (from_block ≤ range.to_block)
      × (range.to_block ≤ to_block)
      × (range.to_block < from_block + chunk_size)
      × (range.to_block < to_block → range.to_block + 1 ≡ from_block + chunk_size)
unfolding plan_block_range
plan_block_range_bounds from_block to_block chunk_size range h =
    (ground arith, ground arith, ground arith, ground arith, λ short. ground arith)

-- There is a plan for every order of blocks and every chunk size that is not refused.
pub plan_block_range_total :
    (from_block to_block chunk_size : ℕ)
    → from_block ≤ to_block
    → 0 < chunk_size
    → (range : BlockRange) × (plan_block_range from_block to_block chunk_size ≡ ok range)
unfolding plan_block_range
plan_block_range_total from_block to_block chunk_size h k = (
  record {
    from_block = from_block;
    to_block =
        if ltb to_block (from_block + chunk_size - 1)
        then to_block
        else from_block + chunk_size - 1;
  },
  ground arith,
)

pub reduce_chunk_size_bounds :
    (chunk_size : ℕ)
    → 1 < chunk_size
    → (0 < reduce_chunk_size chunk_size) × (reduce_chunk_size chunk_size < chunk_size)
unfolding reduce_chunk_size
reduce_chunk_size_bounds chunk_size h = ground arith
