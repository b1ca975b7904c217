-- ===== src/Blocks/Fetch/Ordered.antt =====
-- What fetched batches hold: the requested blocks, in the order in which they were requested.
use parallel_usdp_hyperevm_i.Prelude.{
  ℕ, zero, suc, ◌+◌, ◌<◌, ◌≡◌, refl, ap, sym, ◌∙◌, subst, true, false, ◌==◌, List, [], ◌∷◌, ◌++◌,
  Option, none, some, map, Result, ok, err, length, inl, inr, Bool-cases, Option-cases,
  Result-cases, >>=-eq-ok, ok-injective, eq_of_some_eq, ==→eq,
}
use parallel_usdp_hyperevm_i.Prelude.Text.{Text}
use parallel_usdp_hyperevm_i.Planner.{should_retry_rpc_error}
use parallel_usdp_hyperevm_i.Rpc.Messages.{classify_rpc_error}
use parallel_usdp_hyperevm_i.Ingest.Types.{IngestionCounters, StoredBlock}
use parallel_usdp_hyperevm_i.Ingest.Fetch.{count_retry}
use parallel_usdp_hyperevm_i.Blocks.Fetch.{
  RpcBlockHeader, mined, RpcBatchResponse, BatchAnswer, unreachable, single, rows, row_by_id,
  checked_block, block_of_result, block_of_row, blocks_of_rows, blocks_of_answer, retry_loop, take,
  drop, slices, fetch_block_batch_with_policy, fetch_batches, fetch_blocks_batched,
}

module _ {ℓ} {A : Type ℓ} (ask : ℕ → Result Text A) (max_retries : ℕ) where
  retry_loop-ok :
      (fuel attempt : ℕ) (counters after : IngestionCounters) (answer : A)
      → retry_loop ask max_retries fuel attempt counters ≡ some (ok answer, after)
      → (call : ℕ) × (ask call ≡ ok answer)
  unfolding retry_loop
  retry_loop-ok zero attempt counters after answer h = cc
  retry_loop-ok (suc fuel) attempt counters after answer h = elim (Result-cases (ask attempt)) [
    | inl (value, e) ↦ (
      attempt,
      e
          ∙ ap (λ (x : Result Text A × IngestionCounters). x.0)
              (eq_of_some_eq (rw (e, retry_loop) at h)),
    )
    | inr (message, e) ↦
        elim (Bool-cases
          (should_retry_rpc_error (classify_rpc_error message) attempt max_retries false)) [
            | inl again ↦
                retry_loop-ok fuel (suc attempt) (count_retry counters) after answer
                  (rw (e, again, retry_loop) at h)
            | inr enough ↦ cc (rw (e, enough, retry_loop) at h)
          ]
  ]

checked_block-number :
    (expected : ℕ) (header : RpcBlockHeader) (found : Option (ℕ × Text)) (block : StoredBlock)
    → checked_block expected header found ≡ ok block
    → block.number ≡ expected
checked_block-number expected header none block h = cc
checked_block-number expected header (some (number, hash)) block h =
    elim (Bool-cases (number == expected)) [
      | inl same ↦
          ap (λ (b : StoredBlock). b.number) (sym (ok-injective (rw same at h)))
          ∙ ==→eq number expected same
      | inr other ↦ cc (rw other at h)
    ]

block_of_result-number :
    (expected : ℕ) (result : Option RpcBlockHeader) (block : StoredBlock)
    → block_of_result expected result ≡ ok block
    → block.number ≡ expected
block_of_result-number expected none block h = cc
block_of_result-number expected (some header) block h =
    checked_block-number expected header (mined header.number header.hash) block h

block_of_row-number :
    (expected : ℕ) (row : Option RpcBatchResponse) (block : StoredBlock)
    → block_of_row expected row ≡ ok block
    → block.number ≡ expected
block_of_row-number expected none block h = cc
block_of_row-number expected (some row) block h = elim (Option-cases row.error) [
  | inl fine ↦ block_of_result-number expected row.result block (rw fine at h)
  | inr (message, failed) ↦ cc (rw failed at h)
]

abbrev pub numbers_of : List StoredBlock → List ℕ
numbers_of blocks = map (λ (block : StoredBlock). block.number) blocks

numbers-blocks_of_rows :
    (payload : List RpcBatchResponse) (index : ℕ) (numbers : List ℕ) (blocks : List StoredBlock)
    → blocks_of_rows payload index numbers ≡ ok blocks
    → numbers_of blocks ≡ numbers
unfolding blocks_of_rows
numbers-blocks_of_rows payload index [] blocks h =
    subst (λ x. numbers_of x ≡ []) (ok-injective h) refl
numbers-blocks_of_rows payload index (expected ∷ numbers) blocks h =
    let (block, found, h1) =
      >>=-eq-ok (block_of_row expected (row_by_id (index + 1) payload)) _ h in
    let (rest, later, e) = >>=-eq-ok (blocks_of_rows payload (index + 1) numbers) _ h1 in
    subst (λ x. numbers_of x ≡ expected ∷ numbers) (ok-injective e)
      (rw
        (
          block_of_row-number expected (row_by_id (index + 1) payload) block found,
          numbers-blocks_of_rows payload (index + 1) numbers rest later,
        )
        refl)

numbers-blocks_of_answer :
    (numbers : List ℕ) (answer : BatchAnswer) (blocks : List StoredBlock)
    → blocks_of_answer numbers answer ≡ ok blocks
    → numbers_of blocks ≡ numbers
unfolding blocks_of_answer
numbers-blocks_of_answer numbers (unreachable message) blocks h = cc
numbers-blocks_of_answer numbers (single response_ok status none) blocks h = cc
numbers-blocks_of_answer numbers (single response_ok status (some message)) blocks h = cc
numbers-blocks_of_answer numbers (rows true status payload) blocks h =
    numbers-blocks_of_rows payload 0 numbers blocks h
numbers-blocks_of_answer numbers (rows false status payload) blocks h = cc

abbrev flat : List (List ℕ) → List ℕ
flat [] = []
flat (xs ∷ rest) = xs ++ flat rest

take-append-drop : (n : ℕ) (xs : List ℕ) → take n xs ++ drop n xs ≡ xs
take-append-drop zero xs = refl
take-append-drop (suc n) [] = refl
take-append-drop (suc n) (x ∷ xs) = ap (λ (ys : List ℕ). x ∷ ys) (take-append-drop n xs)

flat-slices :
    (fuel size : ℕ) (xs : List ℕ) (batches : List (List ℕ))
    → slices fuel size xs ≡ some batches
    → flat batches ≡ xs
unfolding slices
flat-slices fuel size [] batches h =
    subst (λ (bs : List (List ℕ)). flat bs ≡ []) (eq_of_some_eq h) refl
flat-slices zero size (x ∷ xs) batches h = cc h
flat-slices (suc fuel) size (x ∷ xs) batches h =
    elim (Option-cases (slices fuel size (drop size (x ∷ xs)))) [
      | inl stuck ↦ cc (rw stuck at h)
      | inr (rest, e) ↦
          subst (λ (bs : List (List ℕ)). flat bs ≡ x ∷ xs) (eq_of_some_eq (rw e at h))
            (rw (flat-slices fuel size (drop size (x ∷ xs)) rest e)
              (take-append-drop size (x ∷ xs)))
    ]

numbers-append : (xs ys : List StoredBlock) → numbers_of (xs ++ ys) ≡ numbers_of xs ++ numbers_of ys
numbers-append [] ys = refl
numbers-append (x ∷ xs) ys = ap (λ (ns : List ℕ). x.number ∷ ns) (numbers-append xs ys)

module _ (get_batch : (batch call : ℕ) → List ℕ → BatchAnswer) (max_retries : ℕ) where
  abbrev BatchOutcome : Type 0
  BatchOutcome = Result Text (List StoredBlock) × IngestionCounters

  numbers-fetch_batch :
      (batch : ℕ) (numbers : List ℕ) (counters after : IngestionCounters)
      (blocks : List StoredBlock)
      → fetch_block_batch_with_policy get_batch max_retries batch numbers counters
        ≡ some (ok blocks, after)
      → numbers_of blocks ≡ numbers
  unfolding fetch_block_batch_with_policy
  numbers-fetch_batch batch numbers counters after blocks h =
      let (call, answered) =
        retry_loop-ok (λ call. blocks_of_answer numbers (get_batch batch call numbers)) max_retries
          (suc max_retries) 0 counters after blocks h in
      numbers-blocks_of_answer numbers (get_batch batch call numbers) blocks answered

  numbers-fetch_batches :
      (batch : ℕ) (batches : List (List ℕ)) (counters after : IngestionCounters)
      (blocks : List StoredBlock)
      → fetch_batches get_batch max_retries batch batches counters ≡ some (ok blocks, after)
      → numbers_of blocks ≡ flat batches
  unfolding fetch_batches
  numbers-fetch_batches batch [] counters after blocks h =
      subst (λ (x : List StoredBlock). numbers_of x ≡ []) {x = []} (cc h) refl
  numbers-fetch_batches batch (numbers ∷ rest) counters after blocks h =
      elim (Option-cases
        (fetch_block_batch_with_policy get_batch max_retries batch numbers counters)) [
          | inl stuck ↦ cc (rw (stuck, fetch_batches) at h)
          | inr ((err message, between), e) ↦ cc (rw (e, fetch_batches) at h)
          | inr ((ok found, between), e) ↦
              elim (Option-cases (fetch_batches get_batch max_retries (suc batch) rest between)) [
                | inl stuck ↦ cc (rw (e, stuck, fetch_batches) at h)
                | inr ((err message, last), f) ↦ cc (rw (e, f, fetch_batches) at h)
                | inr ((ok more, last), f) ↦
                    let same : found ++ more ≡ blocks = cc (rw (e, f, fetch_batches) at h) in
                    subst (λ (x : List StoredBlock). numbers_of x ≡ numbers ++ flat rest) same
                      (rw
                        (
                          numbers-append found more,
                          numbers-fetch_batch batch numbers counters between found e,
                          numbers-fetch_batches (suc batch) rest between last more f,
                        )
                        refl)
              ]
        ]

  -- With a positive batch size, the blocks that are fetched in batches are those that were
  -- requested, each once and in the order of the request.
  pub numbers-fetch_blocks_batched :
      (numbers : List ℕ) (batch_size : ℕ) (counters after : IngestionCounters)
      (blocks : List StoredBlock)
      → 0 < batch_size
      → fetch_blocks_batched get_batch max_retries numbers batch_size counters
        ≡ some (ok blocks, after)
      → numbers_of blocks ≡ numbers
  unfolding fetch_blocks_batched
  numbers-fetch_blocks_batched numbers batch_size counters after blocks sized h =
      elim (Option-cases (slices (length numbers) batch_size numbers)) [
        | inl stuck ↦ cc (rw (stuck, fetch_blocks_batched) at h)
        | inr (batches, e) ↦
            numbers-fetch_batches 0 batches counters after blocks
              (rw (e, fetch_blocks_batched) at h)
            ∙ flat-slices (length numbers) batch_size numbers batches e
      ]
