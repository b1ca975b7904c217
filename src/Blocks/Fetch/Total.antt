-- ===== src/Blocks/Fetch/Total.antt =====
-- Fetches of blocks come to an end, whatever the provider answers.
use parallel_usdp_hyperevm_i.Prelude.{
  ◌++◌, ◌>>=◌, length, ℕ, zero, suc, ◌+◌, ◌<◌, ◌≤◌, ◌≡◌, refl, arith, true, false, some, inl, inr,
  List, [], ◌∷◌, Bool-cases, Result-cases, Result, ok, err,
}
use parallel_usdp_hyperevm_i.Prelude.Text.{Text}
use parallel_usdp_hyperevm_i.Planner.{RpcErrorClass, should_retry_rpc_error}
use parallel_usdp_hyperevm_i.Rpc.Messages.{classify_rpc_error}
use parallel_usdp_hyperevm_i.Ingest.Types.{IngestionCounters, StoredBlock}
use parallel_usdp_hyperevm_i.Ingest.Fetch.{count_retry}
use parallel_usdp_hyperevm_i.Blocks.Fetch.{
  take, drop, BatchAnswer, RpcBlockHeader, as_stored_block, blocks_of_answer, retry_loop, slices,
  fetch_block_with_policy, fetch_block_batch_with_policy, fetch_batches, fetch_blocks_batched,
}

should_retry_bound :
    (error_class : RpcErrorClass) (attempt max_retries : ℕ)
    → should_retry_rpc_error error_class attempt max_retries false ≡ true
    → attempt < max_retries
unfolding should_retry_rpc_error
should_retry_bound error_class attempt max_retries h = ground arith

retry_loop-total {ℓ} :
    {A : Type ℓ} (ask : ℕ → Result Text A) (max_retries fuel attempt : ℕ)
    (counters : IngestionCounters)
    → max_retries < attempt + fuel
    → attempt < max_retries + 1
    → (outcome : Result Text A × IngestionCounters) × (retry_loop ask max_retries fuel attempt
          counters
        ≡ some outcome)
unfolding retry_loop
retry_loop-total ask max_retries zero attempt counters enough within = ground arith
retry_loop-total ask max_retries (suc fuel) attempt counters enough within =
    elim (Result-cases (ask attempt)) [
      | inl (answer, e) ↦ ((ok answer, counters), rw (e, retry_loop) refl)
      | inr (message, e) ↦
          elim (Bool-cases
            (should_retry_rpc_error (classify_rpc_error message) attempt max_retries false)) [
              | inl again ↦
                  let left =
                    should_retry_bound (classify_rpc_error message) attempt max_retries again in
                  let (outcome, f) =
                    retry_loop-total ask max_retries fuel (suc attempt) (count_retry counters)
                      (omega arith) (omega (arith, left)) in
                  (outcome, rw (e, again, retry_loop) f)
              | inr enough_tried ↦ ((err message, counters), rw (e, enough_tried, retry_loop) refl)
            ]
    ]

length-drop {ℓ} : {A : Type ℓ} (n : ℕ) (xs : List A) → length (drop n xs) ≤ length xs
length-drop zero xs = omega arith
length-drop (suc n) [] = omega arith
length-drop (suc n) (x ∷ xs) = omega (arith, length-drop n xs)

-- A positive batch size leaves fewer numbers each time, so that one step a number is enough.
slices-total {ℓ} :
    {A : Type ℓ} (fuel size : ℕ) (xs : List A)
    → 0 < size
    → length xs ≤ fuel
    → (batches : List (List A)) × (slices fuel size xs ≡ some batches)
unfolding slices
slices-total fuel size [] sized enough = ([], refl)
slices-total zero size (x ∷ xs) sized enough = ground arith
slices-total (suc fuel) zero (x ∷ xs) sized enough = ground arith
slices-total (suc fuel) (suc size) (x ∷ xs) sized enough =
    let (batches, e) =
      slices-total fuel (suc size) (drop size xs) sized
        (omega (arith, length-drop size xs, enough)) in
    (take (suc size) (x ∷ xs) ∷ batches, rw e refl)

module _ (get_block : (block_number call : ℕ) → Result Text RpcBlockHeader)
    (get_batch : (batch call : ℕ) → List ℕ → BatchAnswer) (max_retries : ℕ) where
  fetch_block_with_policy-total :
      (block_number : ℕ) (counters : IngestionCounters)
      → (outcome : Result Text StoredBlock × IngestionCounters) × (fetch_block_with_policy get_block
            max_retries block_number counters
          ≡ some outcome)
  unfolding fetch_block_with_policy
  fetch_block_with_policy-total block_number counters =
      retry_loop-total (λ call. get_block block_number call >>= as_stored_block) max_retries
        (suc max_retries) 0 counters (omega arith) (omega arith)

  -- Every way in which the first batch and the others end together.
  joined-total :
      (batch : ℕ) (numbers : List ℕ) (rest : List (List ℕ)) (counters : IngestionCounters)
      (blocks : List StoredBlock) (after : IngestionCounters)
      → fetch_block_batch_with_policy get_batch max_retries batch numbers counters
        ≡ some (ok blocks, after)
      → (outcome : Result Text (List StoredBlock) × IngestionCounters) × (fetch_batches get_batch
            max_retries
            (suc batch)
            rest
            after
          ≡ some outcome)
      → (outcome : Result Text (List StoredBlock) × IngestionCounters) × (fetch_batches get_batch
            max_retries batch
            (numbers ∷ rest)
            counters
          ≡ some outcome)
  unfolding fetch_batches
  joined-total batch numbers rest counters blocks after e ((err message, last), f) =
      ((err message, last), rw (e, f, fetch_batches) refl)
  joined-total batch numbers rest counters blocks after e ((ok more, last), f) =
      ((ok (blocks ++ more), last), rw (e, f, fetch_batches) refl)

  first-total :
      (batch : ℕ) (numbers : List ℕ) (rest : List (List ℕ)) (counters : IngestionCounters)
      → ((after : IngestionCounters)
          → (outcome : Result Text (List StoredBlock) × IngestionCounters) × (fetch_batches
                get_batch max_retries
                (suc batch)
                rest
                after
              ≡ some outcome))
      → (outcome : Result Text (List StoredBlock) × IngestionCounters)
        × (fetch_block_batch_with_policy get_batch max_retries batch numbers counters
            ≡ some outcome)
      → (outcome : Result Text (List StoredBlock) × IngestionCounters) × (fetch_batches get_batch
            max_retries batch
            (numbers ∷ rest)
            counters
          ≡ some outcome)
  unfolding fetch_batches
  first-total batch numbers rest counters later ((err message, after), e) =
      ((err message, after), rw (e, fetch_batches) refl)
  first-total batch numbers rest counters later ((ok blocks, after), e) =
      joined-total batch numbers rest counters blocks after e (later after)

  batch-total :
      (batch : ℕ) (numbers : List ℕ) (counters : IngestionCounters)
      → (outcome : Result Text (List StoredBlock) × IngestionCounters)
        × (fetch_block_batch_with_policy get_batch max_retries batch numbers counters
            ≡ some outcome)
  unfolding fetch_block_batch_with_policy
  batch-total batch numbers counters =
      retry_loop-total (λ call. blocks_of_answer numbers (get_batch batch call numbers)) max_retries
        (suc max_retries) 0 counters (omega arith) (omega arith)

  fetch_batches-total :
      (batch : ℕ) (batches : List (List ℕ)) (counters : IngestionCounters)
      → (outcome : Result Text (List StoredBlock) × IngestionCounters) × (fetch_batches get_batch
            max_retries batch batches counters
          ≡ some outcome)
  unfolding fetch_batches
  fetch_batches-total batch [] counters = ((ok [], counters), refl)
  fetch_batches-total batch (numbers ∷ rest) counters =
      first-total batch numbers rest counters (λ after. fetch_batches-total (suc batch) rest after)
        (batch-total batch numbers counters)

  -- With a positive batch size, a fetch of one block and a fetch of blocks in batches come to an
  -- end, whatever the provider answers: the loop that cuts the batches ends within one step a
  -- number, and each batch within its retries.
  pub fetch_blocks-total :
      (block_number : ℕ) (numbers : List ℕ) (batch_size : ℕ) (counters : IngestionCounters)
      → 0 < batch_size
      → ((outcome : Result Text StoredBlock × IngestionCounters) × (fetch_block_with_policy
              get_block max_retries block_number counters
            ≡ some outcome))
        × ((outcome : Result Text (List StoredBlock) × IngestionCounters) × (fetch_blocks_batched
                get_batch max_retries numbers batch_size counters
              ≡ some outcome))
  unfolding fetch_blocks_batched
  fetch_blocks-total block_number numbers batch_size counters sized =
      let (batches, e) = slices-total (length numbers) batch_size numbers sized (omega arith) in
      let (outcome, f) = fetch_batches-total 0 batches counters in
      (
        fetch_block_with_policy-total block_number counters,
        (outcome, rw (e, fetch_blocks_batched) f),
      )
