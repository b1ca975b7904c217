-- ===== src/Intervals.antt =====
-- src/analytics/range-analytics.ts: `aggregateContiguousYieldIntervals`. Times are milliseconds.
pub mod Contiguous
use parallel_usdp_hyperevm_i.Prelude.{
  ℕ, ◌+◌, ◌-◌, Bool, true, false, not, ◌&&◌, ◌||◌, ◌==◌, ltb, leb, List, [], ◌∷◌, Option, none,
  some, map, all, if◌then◌else◌, filter, sort_by, String,
}
use parallel_usdp_hyperevm_i.Prelude.Int.{ℤ, pos, ◌+ℤ◌}

pub data IntervalStatus : Type 0 where
  candidate verified invalid : IntervalStatus

pub record YieldInterval : Type 0 where
  pub id : ℕ
  pub chain_id : ℕ
  pub window_start : ℕ
  pub window_end : ℕ
  pub native_ypo : ℤ
  pub reconciliation_status : IntervalStatus
  pub calculation_version : String

abbrev pub is_invalid : IntervalStatus → Bool
is_invalid candidate = false
is_invalid verified = false
is_invalid invalid = true

abbrev pub is_verified_status : IntervalStatus → Bool
is_verified_status candidate = false
is_verified_status verified = true
is_verified_status invalid = false

abbrev pub is_relevant : ℕ → ℕ → YieldInterval → Bool
is_relevant range_start range_end interval =
    not (is_invalid interval.reconciliation_status)
    && ltb range_start interval.window_end
    && ltb interval.window_start range_end

-- By the start, and from the same start the longer one first.
abbrev pub interval_before : YieldInterval → YieldInterval → Bool
interval_before left right =
    ltb left.window_start right.window_start
    || (left.window_start == right.window_start && ltb right.window_end left.window_end)

-- `Math.abs(start - cursor) > tolerance`
abbrev pub is_apart : ℕ → ℕ → ℕ → Bool
is_apart tolerance start cursor = ltb (cursor + tolerance) start || ltb (start + tolerance) cursor

-- What the loop leaves: the intervals that it pushes, and its cursor.
abbrev pub Selection : Type 0
Selection = List YieldInterval × ℕ

abbrev pub pushed : YieldInterval → Selection → Selection
pushed interval (selected, cursor) = (interval ∷ selected, cursor)

unfoldable pub select_intervals : ℕ → ℕ → ℕ → List YieldInterval → Selection
select_intervals tolerance range_end cursor [] = ([], cursor)
select_intervals tolerance range_end cursor (interval ∷ rest) =
    elim (leb interval.window_end (cursor + tolerance)) [
      | true ↦ select_intervals tolerance range_end cursor rest
      | false ↦ elim (is_apart tolerance interval.window_start cursor) [
        | true ↦ elim (ltb (cursor + tolerance) interval.window_start) [
          | true ↦ ([], cursor)
          | false ↦ select_intervals tolerance range_end cursor rest
        ]
        | false ↦ elim (leb range_end (interval.window_end + tolerance)) [
          | true ↦ (interval ∷ [], interval.window_end)
          | false ↦ pushed interval (select_intervals tolerance range_end interval.window_end rest)
        ]
      ]
    ]

unfoldable pub total_ypo : ℤ → List YieldInterval → ℤ
total_ypo total [] = total
total_ypo total (interval ∷ rest) = total_ypo (total +ℤ interval.native_ypo) rest

abbrev pub has_interval : List YieldInterval → Bool
has_interval [] = false
has_interval (_ ∷ _) = true

abbrev pub last_end : List YieldInterval → Option ℕ
last_end [] = none
last_end (interval ∷ []) = some interval.window_end
last_end (interval ∷ next ∷ rest) = last_end (next ∷ rest)

-- `complete` and `verified` stand for the status and the reason as well.
pub record AggregatedYield : Type 0 where
  pub complete : Bool
  pub verified : Bool
  pub native_ypo : Option ℤ
  pub interval_ids : List ℕ
  pub covered_through : Option ℕ

abbrev pub aggregated : ℕ → ℕ → Selection → AggregatedYield
aggregated tolerance range_end (selected, cursor) =
    let complete = has_interval selected && leb range_end (cursor + tolerance) in
    record {
      complete = complete;
      verified = complete && all (λ i. is_verified_status i.reconciliation_status) selected;
      native_ypo = if complete then some (total_ypo (pos 0) selected) else none;
      interval_ids = map (λ i. i.id) selected;
      covered_through = last_end selected;
    }

unfoldable pub aggregate_contiguous_yield_intervals :
    List YieldInterval → ℕ → ℕ → ℕ → AggregatedYield
unfolding select_intervals total_ypo
aggregate_contiguous_yield_intervals intervals range_start range_end tolerance =
    aggregated tolerance range_end (
      select_intervals tolerance range_end range_start
        (sort_by interval_before (filter (is_relevant range_start range_end) intervals)))
