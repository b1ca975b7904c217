-- ===== src/Flows/Conserved.antt =====
-- Buckets hold each flow once.
use parallel_usdp_hyperevm_i.Prelude.{
  Result, ℕ, ◌+◌, ◌≡◌, refl, sym, ◌∙◌, subst, arith, Bool, true, ◌==◌, List, [], ◌∷◌, Option, none,
  some, map, ok, >>=-eq-ok, ok-injective, if◌then◌else◌, inl, inr, Bool-cases, and_parts, sum_of,
  sum_of-sort_by, sort_by, ==→eq,
}
use parallel_usdp_hyperevm_i.Prelude.Text.{Text}
use parallel_usdp_hyperevm_i.Flows.{
  FlowError, susdp_accrued, susdp_rate_updated, susdp_max_rate_updated, susdp_pause_toggled,
  susdp_transfer, usdp_transfer, parallelizer_swap_other, NativeFlowMetric, usdp_issued,
  usdp_burned_for_collateral, usdp_redeemed, susdp_deposited, susdp_withdrawn,
  EconomicClassification, flow, Granularity, ClassifiedEconomicEvent, metric_rank, same_metric,
  bucket_start_of, FlowBucket, is_bucket, add_to_bucket, add_flow, add_classified, collect_flows,
  bucket_before, FlowAggregate, flow_aggregate, aggregate_native_flows,
}

abbrev pub or_zero : Option ℕ → ℕ
or_zero none = 0
or_zero (some n) = n

-- The metric of a rank.
abbrev metric_at : ℕ → NativeFlowMetric
metric_at rank =
    if rank == 0
    then susdp_deposited
    else if rank == 1
    then susdp_withdrawn
    else if rank == 2
    then usdp_burned_for_collateral
    else if rank == 3
    then usdp_issued
    else usdp_redeemed

metric_at-rank : (m : NativeFlowMetric) → metric_at (metric_rank m) ≡ m
metric_at-rank usdp_issued = refl
metric_at-rank usdp_burned_for_collateral = refl
metric_at-rank usdp_redeemed = refl
metric_at-rank susdp_deposited = refl
metric_at-rank susdp_withdrawn = refl

metric_eq : (a b : NativeFlowMetric) → same_metric a b ≡ true → a ≡ b
metric_eq a b h =
    sym (metric_at-rank a)
    ∙ subst (λ rank. metric_at rank ≡ b) (sym (==→eq _ _ h)) (metric_at-rank b)

module _ (counts : ℕ → NativeFlowMetric → Bool) where
  -- A number that belongs to a bucket, if the bucket counts.
  abbrev pub if_counts : ℕ → NativeFlowMetric → ℕ → ℕ
  if_counts start metric n = if counts start metric then n else 0

  abbrev bucket_amount : FlowBucket → ℕ
  bucket_amount bucket = if_counts bucket.bucket_start bucket.metric bucket.amount

  abbrev bucket_events : FlowBucket → ℕ
  bucket_events bucket = if_counts bucket.bucket_start bucket.metric bucket.event_count

  sum-add_to_bucket :
      (start : ℕ) (metric : NativeFlowMetric) (amount : ℕ) (participant : Option Text)
      (buckets : List FlowBucket)
      → (sum_of bucket_amount (add_to_bucket start metric amount participant buckets)
          ≡ sum_of bucket_amount buckets + if_counts start metric amount)
        × (sum_of bucket_events (add_to_bucket start metric amount participant buckets)
            ≡ sum_of bucket_events buckets + if_counts start metric 1)
  unfolding add_to_bucket
  sum-add_to_bucket start metric amount participant [] = (ground arith, ground arith)
  sum-add_to_bucket start metric amount participant (bucket ∷ rest) =
      elim (Bool-cases (is_bucket start metric bucket)) [
        | inl same ↦
            let same_start = ==→eq bucket.bucket_start start (and_parts _ _ same).0 in
            let same_kind =
              metric_eq bucket.metric metric (and_parts (bucket.bucket_start == start) _ same).1 in
            (
              rw (same, same_start, same_kind) (ground arith),
              rw (same, same_start, same_kind) (ground arith),
            )
        | inr other ↦
            let (amounts, events) = sum-add_to_bucket start metric amount participant rest in
            (rw other (omega (arith, amounts)), rw other (omega (arith, events)))
      ]

  -- What an event brings to the buckets that count, as an amount and as a number of events.
  abbrev pub classified_amount : Granularity → EconomicClassification → ClassifiedEconomicEvent → ℕ
  classified_amount granularity (flow metric) event =
      if_counts (bucket_start_of granularity event.block_timestamp) metric
        (or_zero event.amount_base_units)
  classified_amount granularity _ event = 0

  abbrev pub classified_events : Granularity → EconomicClassification → ClassifiedEconomicEvent → ℕ
  classified_events granularity (flow metric) event =
      if_counts (bucket_start_of granularity event.block_timestamp) metric 1
  classified_events granularity _ event = 0

  -- What the buckets hold after some events.
  abbrev Adds : ℕ → ℕ → List FlowBucket → List FlowBucket → Type 0
  Adds amount number before after =
      (sum_of bucket_amount after ≡ sum_of bucket_amount before + amount)
      × (sum_of bucket_events after ≡ sum_of bucket_events before + number)

  Adds-add_flow :
      (granularity : Granularity) (metric : NativeFlowMetric) (amount : Option ℕ) (timestamp : ℕ)
      (participant : Option Text) (before after : List FlowBucket)
      → add_flow granularity metric amount timestamp participant before ≡ ok after
      → Adds
          (if_counts (bucket_start_of granularity timestamp) metric (or_zero amount))
          (if_counts (bucket_start_of granularity timestamp) metric 1)
          before
          after
  Adds-add_flow granularity metric none timestamp participant before after h = cc
  Adds-add_flow granularity metric (some amount) timestamp participant before after h =
      subst
        (Adds (if_counts (bucket_start_of granularity timestamp) metric amount)
          (if_counts (bucket_start_of granularity timestamp) metric 1) before)
        (ok-injective h)
        (sum-add_to_bucket (bucket_start_of granularity timestamp) metric amount participant before)

  Adds-nothing :
      (before after : List FlowBucket)
      → (let r : Result FlowError (List FlowBucket) = ok before in r) ≡ ok after
      → Adds 0 0 before after
  Adds-nothing before after h = subst (Adds 0 0 before) (ok-injective h) (omega arith, omega arith)

  Adds-add_classified :
      (granularity : Granularity) (classification : EconomicClassification)
      (event : ClassifiedEconomicEvent) (before after : List FlowBucket)
      → add_classified granularity classification event before ≡ ok after
      → Adds
          (classified_amount granularity classification event)
          (classified_events granularity classification event)
          before
          after
  Adds-add_classified granularity (flow metric) event before after h =
      Adds-add_flow granularity metric event.amount_base_units event.block_timestamp
        event.primary_participant before after h
  Adds-add_classified granularity susdp_accrued event before after h = Adds-nothing before after h
  Adds-add_classified granularity susdp_rate_updated event before after h =
      Adds-nothing before after h
  Adds-add_classified granularity susdp_max_rate_updated event before after h =
      Adds-nothing before after h
  Adds-add_classified granularity susdp_pause_toggled event before after h =
      Adds-nothing before after h
  Adds-add_classified granularity susdp_transfer event before after h = Adds-nothing before after h
  Adds-add_classified granularity usdp_transfer event before after h = Adds-nothing before after h
  Adds-add_classified granularity parallelizer_swap_other event before after h =
      Adds-nothing before after h

  abbrev pub events_amount : Granularity → List ClassifiedEconomicEvent → ℕ
  events_amount granularity events =
      sum_of (λ event. classified_amount granularity event.classification event) events

  abbrev pub events_number : Granularity → List ClassifiedEconomicEvent → ℕ
  events_number granularity events =
      sum_of (λ event. classified_events granularity event.classification event) events

  Adds-collect_flows :
      (granularity : Granularity) (events : List ClassifiedEconomicEvent)
      (before after : List FlowBucket)
      → collect_flows granularity events before ≡ ok after
      → Adds (events_amount granularity events) (events_number granularity events) before after
  unfolding collect_flows
  Adds-collect_flows granularity [] before after h = Adds-nothing before after h
  Adds-collect_flows granularity (event ∷ rest) before after h =
      let (between, added, later) =
        >>=-eq-ok (add_classified granularity event.classification event before)
          (collect_flows granularity rest) h in
      let (amount, number) =
        Adds-add_classified granularity event.classification event before between added in
      let (amounts, numbers) = Adds-collect_flows granularity rest between after later in
      (omega (arith, amount, amounts), omega (arith, number, numbers))

  abbrev pub aggregates_amount : List FlowAggregate → ℕ
  aggregates_amount aggregates =
      sum_of (λ a. if_counts a.bucket_start a.metric a.amount_base_units) aggregates

  abbrev pub aggregates_events : List FlowAggregate → ℕ
  aggregates_events aggregates =
      sum_of (λ a. if_counts a.bucket_start a.metric a.event_count) aggregates

  aggregates_lem :
      (granularity : Granularity) (buckets : List FlowBucket)
      → (aggregates_amount (map (flow_aggregate granularity) buckets)
          ≡ sum_of bucket_amount buckets)
        × (aggregates_events (map (flow_aggregate granularity) buckets)
            ≡ sum_of bucket_events buckets)
  aggregates_lem granularity [] = (refl, refl)
  aggregates_lem granularity (bucket ∷ rest) =
      let (amounts, events) = aggregates_lem granularity rest in
      (omega (arith, amounts), omega (arith, events))

  -- For every choice of buckets, by their start and their metric, the amounts of the chosen
  -- aggregates sum up to the amounts of the native flow events that fall into the chosen buckets,
  -- and so do the numbers of events, where the aggregation does not throw.
  pub sum-aggregate_native_flows :
      (events : List ClassifiedEconomicEvent) (granularity : Granularity)
      (aggregates : List FlowAggregate)
      → aggregate_native_flows events granularity ≡ ok aggregates
      → (aggregates_amount aggregates ≡ events_amount granularity events)
        × (aggregates_events aggregates ≡ events_number granularity events)
  unfolding aggregate_native_flows
  sum-aggregate_native_flows events granularity aggregates h =
      let (buckets, collected, e) = >>=-eq-ok (collect_flows granularity events []) _ h in
      let (amount, number) = Adds-collect_flows granularity events [] buckets collected in
      let (amounts, numbers) = aggregates_lem granularity (sort_by bucket_before buckets) in
      subst
        (λ (x : List FlowAggregate).
          (aggregates_amount x ≡ events_amount granularity events)
          × (aggregates_events x ≡ events_number granularity events))
        (ok-injective e)
        (
          amounts ∙ sum_of-sort_by bucket_before bucket_amount buckets ∙ amount ∙ omega arith,
          numbers ∙ sum_of-sort_by bucket_before bucket_events buckets ∙ number ∙ omega arith,
        )
