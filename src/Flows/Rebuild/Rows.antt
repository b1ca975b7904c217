-- ===== src/Flows/Rebuild/Rows.antt =====
-- The rows of a rebuild: their totals, by granularity and metric.
use parallel_usdp_hyperevm_i.Prelude.{
  sort_by, ℕ, ◌+◌, ◌≡◌, refl, Bool, true, false, not, ◌&&◌, List, [], ◌∷◌, ◌++◌, Option, map,
  filter, All, sum_of, ok, >>=-eq-ok, ok-injective, Bool-cases, inl, inr, arith, ap, subst,
  if◌then◌else◌,
}
use parallel_usdp_hyperevm_i.Prelude.Text.{Text}
use parallel_usdp_hyperevm_i.Flows.{
  susdp_deposited, NativeFlowMetric, same_metric, Granularity, hour, day, EconomicClassification,
  flow, susdp_accrued, susdp_rate_updated, susdp_max_rate_updated, susdp_pause_toggled,
  susdp_transfer, usdp_transfer, parallelizer_swap_other, FlowAggregate, FlowBucket, flow_aggregate,
  aggregate_native_flows, ClassifiedEconomicEvent, bucket_before, collect_flows,
}
use text.Mathlib.TextPositions.{eq_refl}
use parallel_usdp_hyperevm_i.Flows.Conserved.{
  classified_amount, or_zero, events_amount, aggregates_amount,
}
use parallel_usdp_hyperevm_i.Flows.Classify.{
  ProtocolEventInput, Classified, ClassifiedEvent, flow_event, big_int_or_null,
}
use parallel_usdp_hyperevm_i.Flows.Classify.Kept.{stored_weight}
use parallel_usdp_hyperevm_i.Flows.Rebuild.{
  FlowAggregateRow, RebuildOptions, is_of_run, flow_row, replace_aggregates,
}

abbrev pub same_granularity : Granularity → Granularity → Bool
same_granularity hour hour = true
same_granularity day day = true
same_granularity hour day = false
same_granularity day hour = false

-- The amount that a classification brings to a metric.
abbrev pub metric_amount : NativeFlowMetric → EconomicClassification → Option Text → ℕ
metric_amount metric (flow other) amount =
    if same_metric other metric then or_zero (big_int_or_null amount) else 0
metric_amount metric _ amount = 0

abbrev pub metric_weight : NativeFlowMetric → ProtocolEventInput → Classified → ℕ
metric_weight metric event said = metric_amount metric said.classification said.amount_base_units

-- The total of a metric in the rows of a run, at one granularity.
abbrev pub row_amount : RebuildOptions → Granularity → NativeFlowMetric → FlowAggregateRow → ℕ
row_amount options granularity metric row =
    if is_of_run options row
      && same_granularity row.aggregate.granularity granularity
      && same_metric row.aggregate.metric metric
    then row.aggregate.amount_base_units
    else 0

abbrev pub stored_amount :
    RebuildOptions → Granularity → NativeFlowMetric → List FlowAggregateRow → ℕ
stored_amount options granularity metric rows = sum_of (row_amount options granularity metric) rows

module _ (metric : NativeFlowMetric) where
  abbrev pub counts : ℕ → NativeFlowMetric → Bool
  counts start other = same_metric other metric

  event_lem :
      (granularity : Granularity) (classification : EconomicClassification)
      (classified_event : ClassifiedEvent)
      → classified_amount counts granularity classification (flow_event classified_event)
        ≡ metric_amount metric classification classified_event.said.amount_base_units
  unfolding flow_event
  event_lem granularity (flow other) e = refl
  event_lem granularity susdp_accrued e = refl
  event_lem granularity susdp_rate_updated e = refl
  event_lem granularity susdp_max_rate_updated e = refl
  event_lem granularity susdp_pause_toggled e = refl
  event_lem granularity susdp_transfer e = refl
  event_lem granularity usdp_transfer e = refl
  event_lem granularity parallelizer_swap_other e = refl

  pub events_lem :
      (granularity : Granularity) (out : List ClassifiedEvent)
      → events_amount counts granularity (map flow_event out)
        ≡ sum_of (stored_weight (metric_weight metric)) out
  unfolding flow_event
  events_lem granularity [] = refl
  events_lem granularity (e ∷ out) =
      let one = event_lem granularity e.said.classification e in
      omega (arith, one, events_lem granularity out)

  is_of_run-flow_row :
      (options : RebuildOptions) (a : FlowAggregate) → is_of_run options (flow_row options a) ≡ true
  is_of_run-flow_row options a =
      rw (eq_refl options.manifest_version, eq_refl options.calculation_version) (ground arith)

  row_lem :
      (options : RebuildOptions) (g : Granularity) (a : FlowAggregate)
      → row_amount options g metric (flow_row options a) ≡ (
          if same_granularity a.granularity g && same_metric a.metric metric
          then a.amount_base_units
          else 0)
  row_lem options g a = rw (is_of_run-flow_row options a) refl

  pub own_rows :
      (options : RebuildOptions) (g : Granularity) (aggregates : List FlowAggregate)
      → All (λ a. same_granularity a.granularity g ≡ true) aggregates
      → stored_amount options g metric (map (flow_row options) aggregates)
        ≡ aggregates_amount counts aggregates
  own_rows options g [] h = refl
  own_rows options g (a ∷ aggregates) h =
      let one = row_lem options g a in
      let rest = own_rows options g aggregates h.1 in ground (arith, one, rest, h.0)

  pub other_rows :
      (options : RebuildOptions) (g : Granularity) (aggregates : List FlowAggregate)
      → All (λ a. same_granularity a.granularity g ≡ false) aggregates
      → stored_amount options g metric (map (flow_row options) aggregates) ≡ 0
  other_rows options g [] h = refl
  other_rows options g (a ∷ aggregates) h =
      let one = row_lem options g a in
      let rest = other_rows options g aggregates h.1 in ground (arith, one, rest, h.0)

  kept_rows :
      (options : RebuildOptions) (g : Granularity) (rows : List FlowAggregateRow)
      → stored_amount options g metric (filter (λ row. not (is_of_run options row)) rows) ≡ 0
  kept_rows options g [] = refl
  kept_rows options g (row ∷ rows) = elim (Bool-cases (is_of_run options row)) [
    | inl e ↦ rw e (kept_rows options g rows)
    | inr e ↦ rw e (rw e (omega (arith, kept_rows options g rows)))
  ]

  stored-append :
      (options : RebuildOptions) (g : Granularity) (xs ys : List FlowAggregateRow)
      → stored_amount options g metric (xs ++ ys)
        ≡ stored_amount options g metric xs + stored_amount options g metric ys
  stored-append options g [] ys = omega arith
  stored-append options g (x ∷ xs) ys = omega (arith, stored-append options g xs ys)

abbrev pub IsAt : Granularity → Bool → FlowAggregate → Type 0
IsAt g b aggregate = same_granularity aggregate.granularity g ≡ b

All-flow_aggregate :
    (g other : Granularity) (buckets : List FlowBucket)
    → All (IsAt other (same_granularity g other)) (map (flow_aggregate g) buckets)
All-flow_aggregate g other [] = tt
All-flow_aggregate g other (bucket ∷ buckets) = (refl, All-flow_aggregate g other buckets)

pub All-aggregate_native_flows :
    (events : List ClassifiedEconomicEvent) (g other : Granularity)
    (aggregates : List FlowAggregate)
    → aggregate_native_flows events g ≡ ok aggregates
    → All (IsAt other (same_granularity g other)) aggregates
unfolding aggregate_native_flows
All-aggregate_native_flows events g other aggregates h =
    let (buckets, collected, e) = >>=-eq-ok (collect_flows g events []) _ h in
    subst (λ (x : List FlowAggregate). All (IsAt other (same_granularity g other)) x)
      (ok-injective e) (All-flow_aggregate g other (sort_by bucket_before buckets))

map-append :
    (options : RebuildOptions) (xs ys : List FlowAggregate)
    → map (flow_row options) (xs ++ ys) ≡ map (flow_row options) xs ++ map (flow_row options) ys
map-append options [] ys = refl
map-append options (x ∷ xs) ys =
    ap (λ (rows : List FlowAggregateRow). flow_row options x ∷ rows) (map-append options xs ys)

-- The rows of a run are those of the hours and those of the days.
pub stored_lem :
    (metric : NativeFlowMetric) (options : RebuildOptions) (g : Granularity)
    (hours days : List FlowAggregate) (rows : List FlowAggregateRow)
    → stored_amount options g metric (replace_aggregates options (hours ++ days) rows)
      ≡ stored_amount options g metric (map (flow_row options) hours)
        + stored_amount options g metric (map (flow_row options) days)
stored_lem metric options g hours days rows = rw (map-append options hours days) (
    omega (
      arith,
      stored-append metric options g (filter (λ row. not (is_of_run options row)) rows)
          (map (flow_row options) hours ++ map (flow_row options) days),
      stored-append metric options g (map (flow_row options) hours) (map (flow_row options) days),
      kept_rows metric options g rows,
    ))

others_own :
    (options : RebuildOptions) (aggregates : List FlowAggregate)
    → filter (λ row. not (is_of_run options row)) (map (flow_row options) aggregates) ≡ []
others_own options [] = refl
others_own options (a ∷ aggregates) =
    rw (is_of_run-flow_row susdp_deposited options a) (others_own options aggregates)

pub others_lem :
    (options : RebuildOptions) (aggregates : List FlowAggregate) (rows : List FlowAggregateRow)
    → filter (λ row. not (is_of_run options row)) (replace_aggregates options aggregates rows)
      ≡ filter (λ row. not (is_of_run options row)) rows
others_lem options aggregates [] = others_own options aggregates
others_lem options aggregates (row ∷ rows) = elim (Bool-cases (is_of_run options row)) [
  | inl e ↦ rw e (others_lem options aggregates rows)
  | inr e ↦
      rw e (rw e (ap (λ (x : List FlowAggregateRow). row ∷ x) (others_lem options aggregates rows)))
]
