-- ===== src/Blocks/Search.antt =====
-- src/indexer/service.ts: `findBlockAtOrAfterTimestamp`.
use parallel_usdp_hyperevm_i.Prelude.{
  subst, ℕ, zero, suc, ◌+◌, ◌/◌, ◌≤◌, ◌<◌, ◌≡◌, refl, arith, ltb, true, false, Option, none, some,
  Result, ok, err, inl, inr, Bool-cases,
}
use parallel_usdp_hyperevm_i.Prelude.Text.{Text}

module _ (timestamp_at : ℕ → Result Text ℕ) (target_timestamp : ℕ) where
  -- The loop on fuel: one round halves what is left between the bounds.
  unfoldable pub search_block : ℕ → ℕ → ℕ → Option (Result Text ℕ)
  search_block zero low upper = none
  search_block (suc fuel) low upper = elim (ltb low upper) [
    | false ↦ some (ok low)
    | true ↦ elim (timestamp_at ((low + upper) / 2)) [
      | err message ↦ some (err message)
      | ok timestamp ↦ elim (ltb timestamp target_timestamp) [
        | true ↦ search_block fuel ((low + upper) / 2 + 1) upper
        | false ↦ search_block fuel low ((low + upper) / 2)
      ]
    ]
  ]

  unfoldable pub find_block_at_or_after_timestamp : ℕ → Option (Result Text ℕ)
  unfolding search_block
  find_block_at_or_after_timestamp high = search_block (suc high) 0 high

module _ (timestamp_at : ℕ → Result Text ℕ) (target_timestamp : ℕ) (time : ℕ → ℕ)
    (answers : (n : ℕ) → timestamp_at n ≡ ok (time n))
    (grows : (n m : ℕ) → n ≤ m → time n ≤ time m) where
  -- The first block of the range at or after the time, or the range's last block.
  abbrev pub IsFirst : ℕ → ℕ → Type 0
  IsFirst high found =
      (found ≤ high)
      × ((n : ℕ) → n < found → time n < target_timestamp)
      × (found < high → target_timestamp ≤ time found)

  search_block-IsFirst :
      (fuel low upper high : ℕ)
      → upper < low + fuel
      → low ≤ upper
      → upper ≤ high
      → ((n : ℕ) → n < low → time n < target_timestamp)
      → (upper < high → target_timestamp ≤ time upper)
      → (found : ℕ) × (search_block timestamp_at target_timestamp fuel low upper ≡ some (ok found))
        × IsFirst high found
  unfolding search_block
  search_block-IsFirst zero low upper high enough ordered within before after = ground arith
  search_block-IsFirst (suc fuel) low upper high enough ordered within before after =
      elim (Bool-cases (ltb low upper)) [
        | inr closed ↦ (
          low,
          rw (closed, search_block) refl,
          (
            omega arith,
            before,
            λ more.
                let same : upper ≡ low = ground arith in
                subst (λ n. target_timestamp ≤ time n) same (after (ground arith)),
          ),
        )
        | inl open_range ↦
            let middle = (low + upper) / 2 in
            elim (Bool-cases (ltb (time middle) target_timestamp)) [
              | inl early ↦
                  let (found, e, first) =
                    search_block-IsFirst fuel (middle + 1) upper high (ground arith) (ground arith)
                      within
                      (λ n h.
                        let no_later = grows n ((low + upper) / 2) (omega arith) in
                        ground (arith, no_later))
                      after in
                  (found, rw (open_range, answers middle, early, search_block) e, first)
              | inr late ↦
                  let (found, e, first) =
                    search_block-IsFirst fuel low middle high (ground arith) (ground arith)
                      (ground arith) before (λ h. ground arith) in
                  (found, rw (open_range, answers middle, late, search_block) e, first)
            ]
      ]

  -- Where the provider answers every block and times do not decrease with the number, the search
  -- comes to an end at a block of the range before which every block is too early, and which is not
  -- too early itself unless it is the last of the range.
  pub find_block_at_or_after_timestamp-IsFirst :
      (high : ℕ)
      → (found : ℕ) × (find_block_at_or_after_timestamp timestamp_at target_timestamp high
          ≡ some (ok found))
        × IsFirst high found
  unfolding find_block_at_or_after_timestamp
  find_block_at_or_after_timestamp-IsFirst high =
      search_block-IsFirst (suc high) 0 high high (omega arith) (omega arith) (omega arith)
        (λ n h. elim h [ ]) (λ h. ground arith)
