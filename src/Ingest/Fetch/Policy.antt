-- ===== src/Ingest/Fetch/Policy.antt =====
-- What the error policy does to the chunk size and to the number of attempts.
use parallel_usdp_hyperevm_i.Prelude.{ℕ, ◌<◌, ◌≡◌, Bool, false, arith, Option-cases, inl, inr}
use parallel_usdp_hyperevm_i.Prelude.Text.{Text}
use parallel_usdp_hyperevm_i.Planner.{should_retry_rpc_error}
use parallel_usdp_hyperevm_i.Planner.Chunk.{reduce_chunk_size_bounds}
use parallel_usdp_hyperevm_i.Rpc.Messages.{provider_range_limit, provider_range_limit_bounds}
use parallel_usdp_hyperevm_i.Ingest.Fetch.{shrink, retry, reduced_chunk, react}

reduced_chunk_bounds :
    (message : Text) (chunk_size : ℕ)
    → 1 < chunk_size
    → (0 < reduced_chunk (provider_range_limit message) chunk_size)
      × (reduced_chunk (provider_range_limit message) chunk_size < chunk_size)
reduced_chunk_bounds message chunk_size h = elim (Option-cases (provider_range_limit message)) [
  | inl unknown ↦ rw unknown (reduce_chunk_size_bounds chunk_size h)
  | inr (limit, known) ↦
      let bounds = provider_range_limit_bounds message limit known in
      rw known (omega arith, omega arith)
]

-- A chunk only ever becomes smaller, and is never refused as empty.
pub react-shrink :
    (message : Text) (chunk_size attempt max_retries smaller : ℕ) (indefinitely : Bool)
    → react message chunk_size attempt max_retries indefinitely ≡ shrink smaller
    → (0 < smaller) × (smaller < chunk_size)
unfolding react
react-shrink message chunk_size attempt max_retries smaller indefinitely h = (
  ground (arith, reduced_chunk_bounds message chunk_size),
  ground (arith, reduced_chunk_bounds message chunk_size),
)

-- An attempt is repeated only below the limit, unless rate limits are retried for ever.
pub react-retry :
    (message : Text) (chunk_size attempt max_retries : ℕ)
    → react message chunk_size attempt max_retries false ≡ retry
    → attempt < max_retries
unfolding react should_retry_rpc_error
react-retry message chunk_size attempt max_retries h = ground arith
