-- ===== src/Tests/Flowing.antt =====
-- Two deposits in one hour, one in the next, and an event that is no flow.
use parallel_usdp_hyperevm_i.Prelude.{[], ◌∷◌, ◌≡◌, refl, ℕ, List, true, some, none, ok}
use parallel_usdp_hyperevm_i.Prelude.Text.{codes}
use parallel_usdp_hyperevm_i.Flows.{
  ClassifiedEconomicEvent, EconomicClassification, flow, susdp_deposited, usdp_transfer, hour,
  FlowAggregate, aggregate_native_flows, summarize_flow_participants,
}
use parallel_usdp_hyperevm_i.Flows.Conserved.{
  events_number, aggregates_events, events_amount, aggregates_amount, sum-aggregate_native_flows,
}

abbrev event : EconomicClassification → ℕ → ℕ → ClassifiedEconomicEvent
event classification amount timestamp = record {
  classification = classification;
  amount_base_units = some amount;
  primary_participant = some (codes "0xA");
  block_timestamp = timestamp;
}

abbrev events : List ClassifiedEconomicEvent
events =
    event (flow susdp_deposited) 5 7200000
    ∷ event (flow susdp_deposited) 30 3600001
    ∷ event usdp_transfer 9 3600002
    ∷ event (flow susdp_deposited) 4 7199999
    ∷ []

abbrev aggregates : List FlowAggregate
aggregates =
    record {
      granularity = hour;
      bucket_start = 3600000;
      metric = susdp_deposited;
      amount_base_units = 34;
      event_count = 2;
      unique_participants = 1;
    }
    ∷ record {
      granularity = hour;
      bucket_start = 7200000;
      metric = susdp_deposited;
      amount_base_units = 5;
      event_count = 1;
      unique_participants = 1;
    }
    ∷ []

aggregated : aggregate_native_flows events hour ≡ ok aggregates
unfolding aggregate_native_flows parallel_usdp_hyperevm_i.Prelude.sort_by
aggregated = refl

one_depositor : (summarize_flow_participants events).unique_depositors ≡ 1
unfolding summarize_flow_participants
one_depositor = refl

sum-aggregate_native_flows_example :
    (aggregates_amount (λ start metric. true) aggregates
      ≡ events_amount (λ start metric. true) hour events)
    × (aggregates_events (λ start metric. true) aggregates
        ≡ events_number (λ start metric. true) hour events)
sum-aggregate_native_flows_example =
    sum-aggregate_native_flows (λ start metric. true) events hour aggregates aggregated
