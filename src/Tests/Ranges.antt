-- ===== src/Tests/Ranges.antt =====
-- A range of yield made of two intervals, with one that starts too early left out.
use parallel_usdp_hyperevm_i.Prelude.{[], ◌∷◌, ◌≡◌, refl, ℕ, List, true, false, some}
use parallel_usdp_hyperevm_i.Prelude.Int.{pos}
use parallel_usdp_hyperevm_i.Intervals.{
  YieldInterval, IntervalStatus, candidate, verified, invalid, AggregatedYield,
  aggregate_contiguous_yield_intervals,
}
use parallel_usdp_hyperevm_i.Intervals.Contiguous.{
  IsAggregated, aggregate_contiguous_yield_intervals-IsAggregated,
}

abbrev interval : ℕ → ℕ → ℕ → ℕ → IntervalStatus → YieldInterval
interval id start end ypo status = record {
  id = id;
  chain_id = 999;
  window_start = start;
  window_end = end;
  native_ypo = pos ypo;
  reconciliation_status = status;
  calculation_version = "v1";
}

abbrev intervals : List YieldInterval
intervals =
    interval 3 1502 2001 20 verified
    ∷ interval 1 400 1700 9 verified
    ∷ interval 2 1000 1500 10 candidate
    ∷ interval 4 1000 2000 99 invalid
    ∷ []

abbrev aggregate : AggregatedYield
aggregate = record {
  complete = true;
  verified = false;
  native_ypo = some (pos 30);
  interval_ids = 2 ∷ 3 ∷ [];
  covered_through = some 2001;
}

aggregates : aggregate_contiguous_yield_intervals intervals 1001 2000 5 ≡ aggregate
unfolding aggregate_contiguous_yield_intervals parallel_usdp_hyperevm_i.Prelude.sort_by
    parallel_usdp_hyperevm_i.Prelude.Int.◌+ℤ◌
aggregates = refl

completes : (aggregate_contiguous_yield_intervals intervals 1001 2000 5).complete ≡ true
unfolding aggregate_contiguous_yield_intervals parallel_usdp_hyperevm_i.Prelude.sort_by
completes = refl

aggregate_contiguous_yield_intervals-IsAggregated_example :
    IsAggregated intervals 1001 2000 5 (aggregate_contiguous_yield_intervals intervals 1001 2000 5)
aggregate_contiguous_yield_intervals-IsAggregated_example =
    aggregate_contiguous_yield_intervals-IsAggregated intervals 1001 2000 5 completes
