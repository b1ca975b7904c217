-- ===== src/Flows/Rebuild/Totals.antt =====
-- What a rebuild stores adds up to the protocol events it read.
use parallel_usdp_hyperevm_i.Prelude.{
  ℕ, ◌≡◌, refl, Bool, not, List, ◌++◌, map, filter, sum_of, sum_of-sort_by, Result, ok, err,
  >>=-eq-ok, Bool-cases, inl, inr, arith, ◌∙◌, subst,
}
use parallel_usdp_hyperevm_i.Prelude.Text.{Text}
use parallel_usdp_hyperevm_i.Flows.{
  FlowParticipantSummary, NativeFlowMetric, hour, day, FlowAggregate, aggregate_native_flows,
}
use parallel_usdp_hyperevm_i.Flows.Conserved.{sum-aggregate_native_flows}
use parallel_usdp_hyperevm_i.Flows.Classify.{
  ProtocolEventInput, ClassifiedEvent, Deployments, flow_event, classify_protocol_transactions,
}
use parallel_usdp_hyperevm_i.Flows.Classify.Kept.{own_weight, classify_protocol_transactions-kept}
use parallel_usdp_hyperevm_i.Flows.Rebuild.{
  verify_coverage, CoverageRow, Coverage, RebuildError, FlowTables, RebuildOptions,
  rebuild_flow_analytics, rebuild_covered, is_of_run, store_flows, source_events, is_source,
  source_before, or_error, bad_event, bad_flow, bad_range, rebuilt,
}
use parallel_usdp_hyperevm_i.Flows.Rebuild.Rows.{
  metric_weight, stored_amount, counts, events_lem, own_rows, other_rows, stored_lem, others_lem,
  All-aggregate_native_flows,
}

or_error-ok :
    {A E : Type 0} (thrown : E → RebuildError) (r : Result E A) {value : A}
    → or_error thrown r ≡ ok value
    → r ≡ ok value
or_error-ok thrown (ok v) h = cc h
or_error-ok thrown (err e) h = cc h

module _ (is_address : Text → Bool) (get_address : Text → Text) (deployments : Deployments)
    (options : RebuildOptions) (metric : NativeFlowMetric) where
  -- The total of a metric over protocol events, each by its own classification.
  abbrev pub source_amount : List ProtocolEventInput → ℕ
  source_amount events =
      sum_of (own_weight is_address get_address deployments (metric_weight metric)) events

  abbrev pub IsStored : ℕ → FlowTables → FlowTables → Type 0
  IsStored total before after =
      (stored_amount options hour metric after.flow_aggregates ≡ total)
      × (stored_amount options day metric after.flow_aggregates ≡ total)
      × (filter (λ row. not (is_of_run options row)) after.flow_aggregates
          ≡ filter (λ row. not (is_of_run options row)) before.flow_aggregates)

  store_flows-IsStored :
      (source : List ProtocolEventInput) (out : List ClassifiedEvent)
      (hours days : List FlowAggregate) (tables : FlowTables)
      → classify_protocol_transactions is_address get_address deployments source ≡ ok out
      → aggregate_native_flows (map flow_event out) hour ≡ ok hours
      → aggregate_native_flows (map flow_event out) day ≡ ok days
      → IsStored (source_amount source) tables (store_flows options out (hours ++ days) tables)
  store_flows-IsStored source out hours days tables c h d =
      let kept =
        classify_protocol_transactions-kept is_address get_address deployments
          (metric_weight metric) source out (λ event said. refl) c in
      let hourly =
        (sum-aggregate_native_flows (counts metric) (map flow_event out) hour hours h).0 in
      let daily = (sum-aggregate_native_flows (counts metric) (map flow_event out) day days d).0 in
      let rows = tables.flow_aggregates in
      (
        stored_lem metric options hour hours days rows
            ∙ omega (
              arith,
              own_rows metric options hour hours (All-aggregate_native_flows _ hour hour hours h),
              other_rows metric options hour days (All-aggregate_native_flows _ day hour days d),
              hourly,
              events_lem metric hour out,
              kept,
            ),
        stored_lem metric options day hours days rows
            ∙ omega (
              arith,
              other_rows metric options day hours (All-aggregate_native_flows _ hour day hours h),
              own_rows metric options day days (All-aggregate_native_flows _ day day days d),
              daily,
              events_lem metric day out,
              kept,
            ),
        others_lem options (hours ++ days) rows,
      )

  rebuild_covered-IsStored :
      (seen coverage : Coverage) (source : List ProtocolEventInput) (tables after : FlowTables)
      (events classified aggregates : ℕ) (participants : FlowParticipantSummary)
      → rebuild_covered is_address get_address deployments seen options source tables
        ≡ ok (rebuilt coverage events classified aggregates participants, after)
      → IsStored (source_amount source) tables after
  unfolding rebuild_covered
  rebuild_covered-IsStored seen coverage source tables after events classified aggregates
        participants r =
      let (out, c, r1) =
        >>=-eq-ok
          (or_error bad_event
            (classify_protocol_transactions is_address get_address deployments source))
          _ r in
      let (hours, h, r2) =
        >>=-eq-ok (or_error bad_flow (aggregate_native_flows (map flow_event out) hour)) _ r1 in
      let (days, d, r3) =
        >>=-eq-ok (or_error bad_flow (aggregate_native_flows (map flow_event out) day)) _ r2 in
      let same : store_flows options out (hours ++ days) tables ≡ after = cc r3 in
      subst (λ (t : FlowTables). IsStored (source_amount source) tables t) same
        (store_flows-IsStored source out hours days tables (or_error-ok bad_event _ c)
          (or_error-ok bad_flow _ h) (or_error-ok bad_flow _ d))

  -- After a rebuild of the flows, the stored hourly rows of the run and its stored daily rows have,
  -- for each metric, the same total: that of the amounts of the protocol events of the chain in the
  -- range, each by its own classification. The rows of other runs stay.
  pub rebuild_flow_analytics-IsStored :
      (coverage_rows : List CoverageRow) (events : List ProtocolEventInput)
      (tables after : FlowTables) (coverage : Coverage) (sources classified aggregates : ℕ)
      (participants : FlowParticipantSummary)
      → rebuild_flow_analytics is_address get_address deployments options coverage_rows events
          tables
        ≡ ok (rebuilt coverage sources classified aggregates participants, after)
      → IsStored (source_amount (filter (is_source options) events)) tables after
  unfolding rebuild_flow_analytics
  rebuild_flow_analytics-IsStored rows events tables after coverage sources classified aggregates
        participants r =
      let (seen, asked, r1) =
        >>=-eq-ok
          (or_error bad_range (
            verify_coverage rows options.scope options.from_block options.to_block
              options.chain_id))
          _ r in
      elim (Bool-cases seen.complete) [
        | inr c ↦ cc (rw c at r1)
        | inl c ↦
            subst (λ (n : ℕ). IsStored n tables after)
              (sum_of-sort_by source_before
                (own_weight is_address get_address deployments (metric_weight metric))
                (filter (is_source options) events))
              (rebuild_covered-IsStored seen coverage (source_events options events) tables after
                sources classified aggregates participants (rw c at r1))
      ]
