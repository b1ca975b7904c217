-- ===== src/Intervals/Contiguous.antt =====
-- What a complete yield of a range is made of.
use parallel_usdp_hyperevm_i.Prelude.{
  sum_of, ℕ, ◌+◌, ◌≤◌, ◌<◌, ◌≡◌, refl, arith, true, ltb, leb, List, [], ◌∷◌, some, map, all, All,
  All-sort_by, All-imp, All-and, All-filter, All-filter_self, sort_by, filter, inl, inr, Bool-cases,
}
use mathlib.Core.List.{Mem, mem-cons_self, mem-cons_of_mem}
use parallel_usdp_hyperevm_i.Prelude.Int.{ℤ, pos, pos_part, neg_part, ◌+ℤ◌, +ℤ_parts}
use parallel_usdp_hyperevm_i.Intervals.{
  YieldInterval, is_verified_status, is_relevant, interval_before, is_apart, Selection,
  select_intervals, total_ypo, AggregatedYield, aggregated, aggregate_contiguous_yield_intervals,
}

-- From `cursor` to `last`, each interval begins where the one before it ended, up to the tolerance,
-- and ends later by more than the tolerance.
abbrev pub IsContiguous : ℕ → ℕ → List YieldInterval → ℕ → Type 0
IsContiguous tolerance cursor [] last = cursor ≡ last
IsContiguous tolerance cursor (interval ∷ rest) last =
    (interval.window_start ≤ cursor + tolerance)
    × (cursor ≤ interval.window_start + tolerance)
    × (cursor + tolerance < interval.window_end)
    × IsContiguous tolerance interval.window_end rest last

-- An interval that counts for the range.
abbrev pub Counts : ℕ → ℕ → YieldInterval → Type 0
Counts range_start range_end interval = is_relevant range_start range_end interval ≡ true

IsContiguous-select_intervals :
    (P : YieldInterval → Type 0) (tolerance range_end cursor : ℕ) (intervals : List YieldInterval)
    → All P intervals
    → (let selection = select_intervals tolerance range_end cursor intervals in
        IsContiguous tolerance cursor selection.0 selection.1 × All P selection.0)
unfolding select_intervals
IsContiguous-select_intervals P tolerance range_end cursor [] h = (refl, tt)
IsContiguous-select_intervals P tolerance range_end cursor (interval ∷ rest) (p, h) =
    elim (Bool-cases (leb interval.window_end (cursor + tolerance))) [
      | inl old ↦
          rw (old, select_intervals)
            (IsContiguous-select_intervals P tolerance range_end cursor rest h)
      | inr new ↦ elim (Bool-cases (is_apart tolerance interval.window_start cursor)) [
        | inl apart ↦ elim (Bool-cases (ltb (cursor + tolerance) interval.window_start)) [
          | inl beyond ↦ rw (new, apart, beyond, select_intervals) (refl, tt)
          | inr before ↦
              rw (new, apart, before, select_intervals)
                (IsContiguous-select_intervals P tolerance range_end cursor rest h)
        ]
        | inr near ↦ elim (Bool-cases (leb range_end (interval.window_end + tolerance))) [
          | inl done ↦
              rw (new, near, done, select_intervals)
                ((ground arith, ground arith, ground arith, refl), (p, tt))
          | inr more ↦
              let (chain, kept) =
                IsContiguous-select_intervals P tolerance range_end interval.window_end rest h in
              rw (new, near, more, select_intervals)
                ((ground arith, ground arith, ground arith, chain), (p, kept))
        ]
      ]
    ]

-- The integer is the sum of the intervals' yields: what is added to it and to the yields that are
-- negative is the same.
abbrev pub IsSum : ℤ → List YieldInterval → Type 0
IsSum total intervals =
    pos_part total + sum_of (λ (i : YieldInterval). neg_part i.native_ypo) intervals
    ≡ neg_part total + sum_of (λ (i : YieldInterval). pos_part i.native_ypo) intervals

total_ypo_lem :
    (before : ℤ) (intervals : List YieldInterval)
    → (let total = total_ypo before intervals in
        pos_part total
          + (neg_part before + sum_of (λ (i : YieldInterval). neg_part i.native_ypo) intervals)
        ≡ neg_part total
          + (pos_part before + sum_of (λ (i : YieldInterval). pos_part i.native_ypo) intervals))
unfolding total_ypo
total_ypo_lem before [] = omega arith
total_ypo_lem before (interval ∷ rest) =
    omega (
      arith,
      total_ypo_lem (before +ℤ interval.native_ypo) rest,
      +ℤ_parts before interval.native_ypo,
    )

-- What a complete result has been computed from.
pub record IsAggregated (intervals : List YieldInterval) (range_start range_end tolerance : ℕ)
    (result : AggregatedYield) : Type 0 where
  pub selected : List YieldInterval
  pub last : ℕ
  pub ids : result.interval_ids ≡ map (λ (i : YieldInterval). i.id) selected
  pub stored : All (λ i. Mem i intervals) selected
  pub counts : All (Counts range_start range_end) selected
  pub contiguous : IsContiguous tolerance range_start selected last
  pub reaches : range_end ≤ last + tolerance
  pub yield : ℤ
  pub ypo : result.native_ypo ≡ some yield
  pub adds : IsSum yield selected
  pub verified :
      result.verified
      ≡ all (λ (i : YieldInterval). is_verified_status i.reconciliation_status) selected

Mem-self : (intervals : List YieldInterval) → All (λ i. Mem i intervals) intervals
Mem-self [] = tt
Mem-self (interval ∷ rest) =
    (mem-cons_self, All-imp (λ i m. mem-cons_of_mem interval m) rest (Mem-self rest))

-- A stored interval that counts for the range.
abbrev StoredCounts : List YieldInterval → ℕ → ℕ → YieldInterval → Type 0
StoredCounts intervals range_start range_end interval =
    Mem interval intervals × Counts range_start range_end interval

IsAggregated-aggregated :
    (intervals : List YieldInterval) (range_start range_end tolerance : ℕ) (selection : Selection)
    → IsContiguous tolerance range_start selection.0 selection.1
    → All (StoredCounts intervals range_start range_end) selection.0
    → (aggregated tolerance range_end selection).complete ≡ true
    → IsAggregated intervals range_start range_end tolerance
        (aggregated tolerance range_end selection)
IsAggregated-aggregated intervals range_start range_end tolerance (selected, last) chain kept
      complete =
    record {
      selected = selected;
      last = last;
      ids = refl;
      stored = All-imp (λ i h. h.0) selected kept;
      counts = All-imp (λ i h. h.1) selected kept;
      contiguous = chain;
      reaches = ground arith;
      yield = total_ypo (pos 0) selected;
      ypo = rw complete refl;
      adds = omega (arith, total_ypo_lem (pos 0) selected);
      verified = rw complete refl;
    }

-- A yield of a range that is complete is the sum over some of the given intervals, those with the
-- reported ids, that are not invalid and meet the range; each of them begins where the one before
-- it ended, the first one where the range begins and the last one ending where the range ends, all
-- up to the tolerance; and it is verified exactly if each of them is.
pub aggregate_contiguous_yield_intervals-IsAggregated :
    (intervals : List YieldInterval) (range_start range_end tolerance : ℕ)
    → (aggregate_contiguous_yield_intervals intervals range_start range_end tolerance).complete
      ≡ true
    → IsAggregated intervals range_start range_end tolerance
        (aggregate_contiguous_yield_intervals intervals range_start range_end tolerance)
unfolding aggregate_contiguous_yield_intervals
aggregate_contiguous_yield_intervals-IsAggregated intervals range_start range_end tolerance h =
    let relevant = filter (is_relevant range_start range_end) intervals in
    let each : All (StoredCounts intervals range_start range_end) relevant =
      All-and _ _ relevant
        (All-filter _ (is_relevant range_start range_end) intervals (Mem-self intervals))
        (All-filter_self (is_relevant range_start range_end) intervals) in
    let (chain, kept) =
      IsContiguous-select_intervals (StoredCounts intervals range_start range_end) tolerance
        range_end range_start (sort_by interval_before relevant)
        (All-sort_by interval_before (StoredCounts intervals range_start range_end) relevant
          each) in
    IsAggregated-aggregated intervals range_start range_end tolerance
      (select_intervals tolerance range_end range_start (sort_by interval_before relevant)) chain
      kept h
