-- ===== src/History/Reused.antt =====
-- A complete source makes the copy complete.
use parallel_usdp_hyperevm_i.Prelude.{
  ℕ, String, ◌≡◌, ◌≢◌, ◌≤◌, refl, true, ltb, List, [], ◌∷◌, any, any-append, filter, map, All,
  All-append, ok, err, Result-cases, Bool-cases, inl, inr, arith, subst, ◌∙◌, sym, ap,
}
use text.Mathlib.Text.{◌==◌ as str_eq}
use text.Mathlib.TextPositions.{eq_refl}
use text.Mathlib.TextEquality.{eq_iff}
use parallel_usdp_hyperevm_i.Planner.{coverage_gaps}
use parallel_usdp_hyperevm_i.Status.{CoverageRow, selected, verify_coverage, Coverage}
use parallel_usdp_hyperevm_i.Status.Complete.{IsOrderedRow, row_covers, verify_coverage-complete}
use parallel_usdp_hyperevm_i.History.{
  reuse_savings_history_coverage, reused_incomplete, insert_rows, same_row, clipped, copy_coverage,
  after_copy,
}

module _ (chain_id : ℕ) (scope : String) (b : ℕ) where
  same_row-covers :
      (a c : CoverageRow)
      → same_row a c ≡ true
      → row_covers chain_id scope b a ≡ true
      → row_covers chain_id scope b c ≡ true
  same_row-covers a c h k =
      let same : a.scope ≡ c.scope = (eq_iff a.scope c.scope).0 (ground arith) in
      let moved : str_eq a.scope scope ≡ str_eq c.scope scope =
        ap (λ (s : String). str_eq s scope) same in
      ground (arith, moved)

  -- An insert loses no coverage, and adds that of each row.
  insert_rows_keep :
      (rows table : List CoverageRow)
      → any (row_covers chain_id scope b) table ≡ true
      → any (row_covers chain_id scope b) (insert_rows rows table) ≡ true
  unfolding insert_rows
  insert_rows_keep [] table h = h
  insert_rows_keep (row ∷ rows) table h =
      insert_rows_keep rows _ (elim (Bool-cases (any (same_row row) table)) [
        | inl e ↦ rw e h
        | inr e ↦
            rw e (any-append (row_covers chain_id scope b) table (row ∷ []) ∙ ground (arith, h))
      ])

  any_same :
      (row : CoverageRow) (table : List CoverageRow)
      → any (same_row row) table ≡ true
      → row_covers chain_id scope b row ≡ true
      → any (row_covers chain_id scope b) table ≡ true
  any_same row [] h k = cc h
  any_same row (other ∷ table) h k = elim (Bool-cases (same_row row other)) [
    | inl e ↦ rw (same_row-covers row other e k) refl
    | inr e ↦ ground (arith, any_same row table (rw e at h) k)
  ]

  insert_rows_add :
      (rows table : List CoverageRow)
      → any (row_covers chain_id scope b) rows ≡ true
      → any (row_covers chain_id scope b) (insert_rows rows table) ≡ true
  unfolding insert_rows
  insert_rows_add [] table h = cc h
  insert_rows_add (row ∷ rows) table h = elim (Bool-cases (row_covers chain_id scope b row)) [
    | inl covers ↦ insert_rows_keep rows _ (elim (Bool-cases (any (same_row row) table)) [
      | inl e ↦ rw e (any_same row table e covers)
      | inr e ↦
          rw e (any-append (row_covers chain_id scope b) table (row ∷ []) ∙ ground (arith, covers))
    ])
    | inr misses ↦ insert_rows_add rows _ (rw misses at h)
  ]

All-insert_rows :
    (rows table : List CoverageRow)
    → All IsOrderedRow rows
    → All IsOrderedRow table
    → All IsOrderedRow (insert_rows rows table)
unfolding insert_rows
All-insert_rows [] table h k = k
All-insert_rows (row ∷ rows) table h k =
    All-insert_rows rows _ h.1 (elim (Bool-cases (any (same_row row) table)) [
      | inl e ↦ rw e k
      | inr e ↦ rw e (All-append IsOrderedRow table (row ∷ []) k (h.0, tt))
    ])

module _ (source target : String) (from_block to_block chain_id : ℕ) where
  abbrev cut : List CoverageRow → List CoverageRow
  cut table =
      map (clipped target from_block to_block)
        (filter (selected chain_id source from_block to_block) table)

  cut-covers :
      (b : ℕ) (table : List CoverageRow)
      → from_block ≤ b
      → b ≤ to_block
      → any (row_covers chain_id source b) table ≡ true
      → any (row_covers chain_id target b) (cut table) ≡ true
  cut-covers b [] low high h = cc h
  cut-covers b (row ∷ table) low high h = elim (Bool-cases (row_covers chain_id source b row)) [
    | inl covers ↦
        let taken : selected chain_id source from_block to_block row ≡ true = ground arith in
        let named = eq_refl target in rw taken (ground arith)
    | inr misses ↦
        let rest = cut-covers b table low high (rw misses at h) in
        elim (Bool-cases (selected chain_id source from_block to_block row)) [
          | inl taken ↦ rw taken (ground (arith, rest))
          | inr left_out ↦ rw left_out rest
        ]
  ]

  cut-IsOrdered :
      (table : List CoverageRow)
      → from_block ≤ to_block
      → All IsOrderedRow table
      → All IsOrderedRow (cut table)
  cut-IsOrdered [] h k = tt
  cut-IsOrdered (row ∷ table) h k =
      elim (Bool-cases (selected chain_id source from_block to_block row)) [
        | inl taken ↦ rw taken (ground arith, cut-IsOrdered table h k.1)
        | inr left_out ↦ rw left_out (cut-IsOrdered table h k.1)
      ]

  abbrev pub after : List CoverageRow → List CoverageRow
  after table = after_copy source target from_block to_block chain_id table

  after-IsOrdered :
      (table : List CoverageRow)
      → from_block ≤ to_block
      → All IsOrderedRow table
      → All IsOrderedRow (after table)
  unfolding copy_coverage
  after-IsOrdered table h k = elim (Bool-cases (str_eq source target)) [
    | inl e ↦ rw e k
    | inr e ↦ rw e (All-insert_rows (cut table) table (cut-IsOrdered table h k) k)
  ]

  after-covers :
      (b : ℕ) (table : List CoverageRow)
      → from_block ≤ b
      → b ≤ to_block
      → any (row_covers chain_id source b) table ≡ true
      → any (row_covers chain_id target b) (after table) ≡ true
  unfolding copy_coverage
  after-covers b table low high h = elim (Bool-cases (str_eq source target)) [
    | inl e ↦ rw e (
        subst (λ (s : String). any (row_covers chain_id s b) table ≡ true)
          ((eq_iff source target).0 e) h)
    | inr e ↦
        rw e (insert_rows_add chain_id target b (cut table) table (cut-covers b table low high h))
  ]

  verify_coverage_order :
      (table : List CoverageRow) (scope : String) (coverage : Coverage)
      → verify_coverage table scope from_block to_block chain_id ≡ ok coverage
      → from_block ≤ to_block
  unfolding verify_coverage coverage_gaps
  verify_coverage_order table scope coverage h = elim (Bool-cases (ltb to_block from_block)) [
    | inl e ↦ cc (rw e at h)
    | inr e ↦ ground arith
  ]

  copy_complete :
      (table : List CoverageRow) (coverage copy : Coverage)
      → All IsOrderedRow table
      → verify_coverage table source from_block to_block chain_id ≡ ok coverage
      → coverage.complete ≡ true
      → verify_coverage (after table) target from_block to_block chain_id ≡ ok copy
      → copy.complete ≡ true
  copy_complete table coverage copy o e c f =
      let ordered = after-IsOrdered table (verify_coverage_order table source coverage e) o in
      (verify_coverage-complete chain_id target from_block to_block (after table) copy ordered f).1
        (λ b missing. elim (Bool-cases (any (row_covers chain_id source b) table)) [
          | inl covered ↦ cc (sym missing.2 ∙ after-covers b table missing.0 missing.1 covered)
          | inr uncovered ↦
              (verify_coverage-complete chain_id source from_block to_block table coverage o e).0 c
                b (missing.0, missing.1, uncovered)
        ])

  -- Where no row is reversed, the reuse of coverage never throws that the reused coverage is
  -- incomplete: a source that is complete over the range makes the copy complete, whatever rows the
  -- target scope already has.
  pub reuse_savings_history_coverage_complete :
      (table : List CoverageRow)
      → All IsOrderedRow table
      → reuse_savings_history_coverage source target from_block to_block chain_id table
        ≢ err reused_incomplete
  unfolding reuse_savings_history_coverage
  reuse_savings_history_coverage_complete table o h =
      elim (Result-cases (verify_coverage table source from_block to_block chain_id)) [
        | inr (error, e) ↦ cc (rw e at h)
        | inl (coverage, e) ↦ elim (Bool-cases coverage.complete) [
          | inr c ↦ cc (rw c at (rw e at h))
          | inl c ↦
              elim (Result-cases
                (verify_coverage (after table) target from_block to_block chain_id)) [
                  | inr (error, f) ↦ cc (rw f at (rw c at (rw e at h)))
                  | inl (copy, f) ↦ elim (Bool-cases copy.complete) [
                    | inl d ↦ cc (rw d at (rw f at (rw c at (rw e at h))))
                    | inr d ↦ cc (sym d ∙ copy_complete table coverage copy o e c f)
                  ]
                ]
        ]
      ]
