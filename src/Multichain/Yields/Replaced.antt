-- ===== src/Multichain/Yields/Replaced.antt =====
-- A second run for a window replaces the components of the first.
use parallel_usdp_hyperevm_i.Prelude.{
  ap, ℕ, ◌≡◌, Bool, true, ◌≤◌, refl, not, List, [], ◌∷◌, count, filter, map, arith, Bool-cases, inl,
  inr,
}
use parallel_usdp_hyperevm_i.Yield.{YieldRow}
use parallel_usdp_hyperevm_i.Multichain.Yields.{
  GlobalYieldRow, GlobalYields, YieldComponentRow, create_global_savings_yield, upsert_yield,
  updated, global_yield_row, of_window, replace_components, is_part_of, yield_component_row,
}

parts-map :
    (id : ℕ) (rows : List YieldRow)
    → filter (is_part_of id) (map (yield_component_row id) rows) ≡ map (yield_component_row id) rows
parts-map id [] = refl
parts-map id (row ∷ rows) = ground (arith, parts-map id rows)

parts-replace :
    (id : ℕ) (included : List YieldRow) (table : List YieldComponentRow)
    → filter (is_part_of id) (replace_components id included table)
      ≡ map (yield_component_row id) included
parts-replace id included [] = parts-map id included
parts-replace id included (row ∷ table) = elim (Bool-cases (is_part_of id row)) [
  | inl e ↦ rw e (parts-replace id included table)
  | inr e ↦ rw e (rw e (parts-replace id included table))
]

others-map :
    (id : ℕ) (rows : List YieldRow)
    → filter (λ row. not (is_part_of id row)) (map (yield_component_row id) rows) ≡ []
others-map id [] = refl
others-map id (row ∷ rows) = ground (arith, others-map id rows)

others-replace :
    (id : ℕ) (included : List YieldRow) (table : List YieldComponentRow)
    → filter (λ row. not (is_part_of id row)) (replace_components id included table)
      ≡ filter (λ row. not (is_part_of id row)) table
others-replace id included [] = others-map id included
others-replace id included (row ∷ table) = elim (Bool-cases (is_part_of id row)) [
  | inl e ↦ rw e (others-replace id included table)
  | inr e ↦
      rw e (
        rw e
          (ap (λ (rows : List YieldComponentRow). row ∷ rows) (others-replace id included table)))
]

-- A row that stands for the given one: of its window, with its counts and amounts.
abbrev pub StandsFor : GlobalYieldRow → GlobalYieldRow → Type 0
StandsFor row kept =
    (kept.global_start ≡ row.global_start)
    × (kept.global_end ≡ row.global_end)
    × (kept.included_chain_count ≡ row.included_chain_count)
    × (kept.aggregate ≡ row.aggregate)

-- The rows of the window are one, which stands for the row and has the reported id.
abbrev pub HasOne : GlobalYieldRow → ℕ → List GlobalYieldRow → Type 0
HasOne row id rows =
    (kept : GlobalYieldRow) × (filter (of_window row.global_start row.global_end) rows ≡ kept ∷ [])
    × (kept.id ≡ id)
    × StandsFor row kept

none_of_count :
    (p : GlobalYieldRow → Bool) (rows : List GlobalYieldRow) → count p rows ≤ 0 → filter p rows ≡ []
none_of_count p [] h = refl
none_of_count p (row ∷ rows) h = elim (Bool-cases (p row)) [
  | inl e ↦ ground (arith, e, h)
  | inr e ↦ rw e (none_of_count p rows (ground (arith, e, h)))
]

upsert_yield-HasOne :
    (row : GlobalYieldRow) (table : List GlobalYieldRow)
    → count (of_window row.global_start row.global_end) table ≤ 1
    → (let (id, after) = upsert_yield row table in HasOne row id after)
unfolding upsert_yield
upsert_yield-HasOne row [] h =
    let own : of_window row.global_start row.global_end row ≡ true = ground arith in
    (row, rw own refl, refl, (refl, refl, refl, refl))
upsert_yield-HasOne row (existing ∷ rest) h =
    elim (Bool-cases (of_window row.global_start row.global_end existing)) [
      | inl e ↦
          let none_left =
            none_of_count (of_window row.global_start row.global_end) rest (ground (arith, e, h)) in
          rw e (
            updated row existing,
            rw (e, none_left) refl,
            refl,
            (ground (arith, e), ground (arith, e), refl, refl),
          )
      | inr e ↦
          let (kept, only, same, stands) = upsert_yield-HasOne row rest (ground (arith, e, h)) in
          rw e (kept, rw e only, same, stands)
    ]

-- The rows of other windows stay.
upsert_yield-others :
    (row : GlobalYieldRow) (table : List GlobalYieldRow)
    → filter (λ r. not (of_window row.global_start row.global_end r)) (upsert_yield row table).1
      ≡ filter (λ r. not (of_window row.global_start row.global_end r)) table
unfolding upsert_yield
upsert_yield-others row [] =
    let own : of_window row.global_start row.global_end row ≡ true = ground arith in rw own refl
upsert_yield-others row (existing ∷ rest) =
    elim (Bool-cases (of_window row.global_start row.global_end existing)) [
      | inl e ↦ rw e (rw e refl)
      | inr e ↦ rw e (
          rw e
            (ap (λ (rows : List GlobalYieldRow). existing ∷ rows) (upsert_yield-others row rest)))
    ]

module _ (table : List YieldRow) (expected : List ℕ) (window_start window_end id : ℕ) where
  -- A run for a window that had at most one aggregate leaves exactly one, which has the reported id
  -- and the counts and the amounts of the run; the aggregates of other windows stay. The components
  -- of the reported id are those that the run included and no others, and the components of other
  -- ids stay.
  pub create_global_savings_yield-replaces :
      (stored : GlobalYields)
      → count (of_window window_start window_end) stored.aggregates ≤ 1
      → (let (global_id, aggregate, after) =
            create_global_savings_yield table expected window_start window_end id stored in
          HasOne
            (global_yield_row id window_start window_end expected aggregate)
            global_id
            after.aggregates
          × (filter (λ row. not (of_window window_start window_end row)) after.aggregates
              ≡ filter (λ row. not (of_window window_start window_end row)) stored.aggregates)
          × (filter (is_part_of global_id) after.components
              ≡ map (yield_component_row global_id) aggregate.included)
          × (filter (λ row. not (is_part_of global_id row)) after.components
              ≡ filter (λ row. not (is_part_of global_id row)) stored.components))
  unfolding create_global_savings_yield
  create_global_savings_yield-replaces stored h = (
    upsert_yield-HasOne _ stored.aggregates h,
    upsert_yield-others _ stored.aggregates,
    parts-replace _ _ stored.components,
    others-replace _ _ stored.components,
  )
