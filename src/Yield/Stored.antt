-- ===== src/Yield/Stored.antt =====
-- When a yield is a candidate, and what is then stored.
use parallel_usdp_hyperevm_i.Prelude.{
  first-filter, any, All, any-append, sym, ◌∙◌, ◌⊎◌, ◌++◌, ◌&&◌, ◌≤◌, ◌==◌, leb, ◌∙◌, any-append,
  ◌++◌, ◌==◌, ◌&&◌, ◌⊎◌, any, leb, ℕ, ◌≡◌, refl, ◌<◌, Bool, true, false, List, ◌∷◌, [], Option,
  none, some, Result, ok, err, >>=-eq-ok, Bool-cases, inl, inr, arith, ◌||◌, subst,
}
use text.Mathlib.TextPositions.{eq_refl}
use parallel_usdp_hyperevm_i.Status.Complete.{IsOrderedRow, row_covers, verify_coverage-complete}
use parallel_usdp_hyperevm_i.Yield.{
  insert_unless, same_window, verify_coverage, calculate_native_ypo, Coverage, is_invalid,
  YieldOptions, Tables, YieldRow, YieldError, calculate_savings_yield_for_range, snapshot_at,
  SnapshotRow, accrued_interest_of, yield_candidate, candidate_of, check_boundaries, or_thrown,
  bad_ypo, bad_coverage, insert_yield, yield_row,
}

or_thrown-ok :
    {A E : Type 0} (thrown : E → YieldError) (r : Result E A) {value : A}
    → or_thrown thrown r ≡ ok value
    → r ≡ ok value
or_thrown-ok thrown (ok v) h = cc h
or_thrown-ok thrown (err e) h = cc h

module _ (options : YieldOptions) (tables : Tables) (id now : ℕ) (stored : List YieldRow) where
  abbrev interest : ℕ
  interest = accrued_interest_of options.chain_id options.from_block options.to_block tables.events

  -- A candidate, from the two boundary snapshots.
  pub record IsCandidateOf (left right : Option SnapshotRow) (stored_id : ℕ) (row : YieldRow)
      (after : List YieldRow) : Type 0 where
    pub start : SnapshotRow
    pub end : SnapshotRow
    pub start_found : left ≡ some start
    pub end_found : right ≡ some end
    pub both_valid : (is_invalid start.snapshot_status || is_invalid end.snapshot_status) ≡ false
    pub ypo :
        calculate_native_ypo interest start.susdp_pending_yield end.susdp_pending_yield
        ≡ ok row.native_ypo
    pub inserted : insert_yield row stored ≡ (stored_id, after)
    pub the_row : row ≡ yield_row options id now start end interest row.native_ypo

  candidate_of_lem :
      (coverage seen : Coverage) (start end : SnapshotRow) (stored_id : ℕ) (row : YieldRow)
      (after : List YieldRow)
      → (is_invalid start.snapshot_status || is_invalid end.snapshot_status) ≡ false
      → candidate_of options tables coverage id now stored start end
        ≡ ok (yield_candidate stored_id seen row, after)
      → IsCandidateOf (some start) (some end) stored_id row after
  candidate_of_lem coverage seen start end stored_id row after valid h =
      let (ypo, found, rest) =
        >>=-eq-ok
          (or_thrown bad_ypo
            (calculate_native_ypo interest start.susdp_pending_yield end.susdp_pending_yield))
          _ h in
      let made = yield_row options id now start end interest ypo in
      let same : made ≡ row = cc rest in
      let put : insert_yield made stored ≡ (stored_id, after) = cc rest in
      subst (λ (r : YieldRow). IsCandidateOf (some start) (some end) stored_id r after) same
        (record {
          start = start;
          end = end;
          start_found = refl;
          end_found = refl;
          both_valid = valid;
          ypo = or_thrown-ok bad_ypo _ found;
          inserted = put;
          the_row = refl;
        })

  check_boundaries_lem :
      (coverage seen : Coverage) (left right : Option SnapshotRow) (stored_id : ℕ) (row : YieldRow)
      (after : List YieldRow)
      → check_boundaries options tables coverage id now stored left right
        ≡ ok (yield_candidate stored_id seen row, after)
      → IsCandidateOf left right stored_id row after
  check_boundaries_lem coverage seen none none stored_id row after h = cc h
  check_boundaries_lem coverage seen none (some _) stored_id row after h = cc h
  check_boundaries_lem coverage seen (some _) none stored_id row after h = cc h
  check_boundaries_lem coverage seen (some start) (some end) stored_id row after h =
      elim (Bool-cases (is_invalid start.snapshot_status || is_invalid end.snapshot_status)) [
        | inl e ↦ cc (rw e at h)
        | inr e ↦ candidate_of_lem coverage seen start end stored_id row after e (rw e at h)
      ]

  pub IsCandidateOf-calculate :
      (stored_id : ℕ) (coverage : Coverage) (row : YieldRow) (after : List YieldRow)
      → calculate_savings_yield_for_range options tables id now stored
        ≡ ok (yield_candidate stored_id coverage row, after)
      → IsCandidateOf
          (snapshot_at options tables.snapshots options.from_block)
          (snapshot_at options tables.snapshots options.to_block)
          stored_id
          row
          after
        × ((options.from_block < options.to_block)
            × ((found : Coverage) × (found.complete ≡ true)
                × (verify_coverage tables.coverage options.scope options.from_block options.to_block
                      options.chain_id
                    ≡ ok found)))
  unfolding calculate_savings_yield_for_range
  IsCandidateOf-calculate stored_id coverage row after h =
      elim (Bool-cases (leb options.to_block options.from_block)) [
        | inl e ↦ cc (rw e at h)
        | inr e ↦
            let (found, asked, rest) =
              >>=-eq-ok
                (or_thrown bad_coverage (
                  verify_coverage tables.coverage options.scope options.from_block options.to_block
                    options.chain_id))
                _ (rw e at h) in
            elim (Bool-cases found.complete) [
              | inl c ↦ (
                check_boundaries_lem found coverage _ _ stored_id row after (rw c at rest),
                (ground arith, (found, c, or_thrown-ok bad_coverage _ asked)),
              )
              | inr c ↦ cc (rw c at rest)
            ]
      ]

same_window_refl : (row : YieldRow) → same_window row row ≡ true
same_window_refl row =
    rw (eq_refl row.manifest_version, eq_refl row.calculation_version) (ground arith)

-- A row of the window stands in the table under the id.
abbrev pub is_stored_as : YieldRow → ℕ → YieldRow → Bool
is_stored_as row stored_id r = same_window row r && r.id == stored_id

-- The window is in the table under the id, and the table is the one before, or has the new row
-- behind it because it had none of its window.
abbrev pub IsInserted : YieldRow → List YieldRow → ℕ → List YieldRow → Type 0
IsInserted row stored stored_id after =
    (any (is_stored_as row stored_id) after ≡ true)
    × ((after ≡ stored) ⊎ ((any (same_window row) stored ≡ false) × (after ≡ stored ++ row ∷ [])))

abbrev IsInsertedBy : YieldRow → List YieldRow → Option YieldRow → Type 0
IsInsertedBy row stored found =
    IsInserted row stored (insert_unless row stored found).0 (insert_unless row stored found).1

insert_yield-IsInserted :
    (row : YieldRow) (stored : List YieldRow)
    → IsInserted row stored (insert_yield row stored).0 (insert_yield row stored).1
insert_yield-IsInserted row stored = elim (first-filter (same_window row) stored) [
  | inl (nothing, none_there) ↦ subst (IsInsertedBy row stored) (sym nothing) (
    any-append (is_stored_as row row.id) stored (row ∷ []) ∙ ground (arith, same_window_refl row),
    inr (none_there, refl),
  )
  | inr (existing, found, same, there) ↦
      subst (IsInsertedBy row stored) (sym found)
        (there (λ r. r.id == existing.id) (ground arith), inl refl)
]

-- Where no row of the coverage is reversed, a yield is a candidate only if every block of its range
-- is covered by a row of the chain and the scope. Its window then stands in the table under the
-- returned id, and the table is the one before, or has the new row behind it where it had none of
-- that window.
pub calculate_savings_yield_for_range-stored :
    (options : YieldOptions) (tables : Tables) (id now : ℕ) (stored : List YieldRow) (stored_id : ℕ)
    (coverage : Coverage) (row : YieldRow) (after : List YieldRow)
    → All IsOrderedRow tables.coverage
    → calculate_savings_yield_for_range options tables id now stored
      ≡ ok (yield_candidate stored_id coverage row, after)
    → ((b : ℕ)
        → options.from_block ≤ b
        → b ≤ options.to_block
        → any (row_covers options.chain_id options.scope b) tables.coverage ≡ true)
      × IsInserted row stored stored_id after
calculate_savings_yield_for_range-stored options tables id now stored stored_id coverage row after o
      h =
    let (facts, (_, (found, complete, asked))) =
      IsCandidateOf-calculate options tables id now stored stored_id coverage row after h in
    (
      λ b low high.
          elim (Bool-cases (any (row_covers options.chain_id options.scope b) tables.coverage)) [
            | inl covers ↦ covers
            | inr missing ↦ absurd (
                (verify_coverage-complete options.chain_id options.scope options.from_block
                    options.to_block tables.coverage found o asked).0
                  complete b (low, high, missing))
          ],
      subst (λ (p : ℕ × List YieldRow). IsInserted row stored p.0 p.1) facts.inserted
          (insert_yield-IsInserted row stored),
    )
