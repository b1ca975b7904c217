-- ===== src/Tests/Classifying.antt =====
-- Protocol events of two transactions, classified.
use parallel_usdp_hyperevm_i.Prelude.{
  ◌↔◌, ◌++◌, err, map, filter, sort_by, ℕ, String, ◌≡◌, refl, Bool, true, false, List, [], ◌∷◌,
  Option, none, some, ok, ◌>>=◌, sum_of, arith, if◌then◌else◌,
}
use parallel_usdp_hyperevm_i.Prelude.Text.{Text, codes, starts_with, decimal_text}
use parallel_usdp_hyperevm_i.Flows.{
  flow, susdp_deposited, susdp_accrued, EconomicClassification, Granularity, hour, day,
  FlowAggregate,
}
use parallel_usdp_hyperevm_i.Flows.Rebuild.{
  RebuildOptions, FlowTables, FlowAggregateRow, flow_row, store_flows, rebuild_flow_analytics,
  rebuilt, is_source,
}
use parallel_usdp_hyperevm_i.Flows.Rebuild.Totals.{
  IsStored, source_amount, rebuild_flow_analytics-IsStored,
}
use parallel_usdp_hyperevm_i.Status.{CoverageRow}
use parallel_usdp_hyperevm_i.Flows.Payload.{
  not_unsigned, field_of, Payload, PayloadValue, object, text, unsigned_amount, big_int,
}
use parallel_usdp_hyperevm_i.Flows.Payload.Amounts.{unsigned_amount-decimal_text}
use parallel_usdp_hyperevm_i.Flows.Payload.Decimal.{IsDecimalOf, zeros}
use parallel_usdp_hyperevm_i.Flows.Classify.Kept.{
  stored_weight, own_weight, classify_protocol_transactions-kept,
}
use parallel_usdp_hyperevm_i.Flows.Classify.{
  classify_protocol_transactions, ClassifiedEvent, ProtocolEventInput, Classified, Deployments,
}

abbrev begins_with_0x : Text → Bool
begins_with_0x t = starts_with (codes "0x") t

abbrev get_address : Text → Text
get_address t = t

abbrev deployments : Deployments
deployments = record {
  usdp = record { chain_id = 1; address = codes "0xAA" } ∷ [];
  susdp = record { chain_id = 1; address = codes "0xBB" } ∷ [];
}

abbrev deposit : List (Text × PayloadValue)
deposit =
    (codes "owner", text (codes "0xOne"))
    ∷ (codes "sender", text (codes "0xTwo"))
    ∷ (codes "assets", text (decimal_text 1250))
    ∷ []

abbrev accrued : List (Text × PayloadValue)
accrued = (codes "interest", text (decimal_text 7)) ∷ []

abbrev event : ℕ → String → ℕ → String → List (Text × PayloadValue) → ProtocolEventInput
event id hash index name fields = record {
  id = id;
  chain_id = 1;
  block_number = 10;
  block_timestamp = 1000;
  transaction_hash = codes hash;
  log_index = index;
  contract_role = "susdp-savings";
  event_name = name;
  payload = object fields;
}

-- The first and the third are of one transaction, the last is of no kind that is classified.
abbrev events : List ProtocolEventInput
events =
    event 1 "0xT" 4 "Deposit" deposit
    ∷ event 2 "0xU" 1 "Accrued" accrued
    ∷ event 3 "0xt" 2 "Accrued" accrued
    ∷ event 4 "0xu" 0 "Approval" []
    ∷ []

-- No sign, no fraction and no prefix is accepted.
refused :
    map
      (λ t. unsigned_amount (object ((codes "assets", text (codes t)) ∷ [])) (codes "assets"))
      ("-1" ∷ "1.5" ∷ "0x10" ∷ "007" ∷ [])
    ≡ err (not_unsigned (codes "assets"))
      ∷ err (not_unsigned (codes "assets"))
      ∷ err (not_unsigned (codes "assets"))
      ∷ ok (codes "007")
      ∷ []
unfolding unsigned_amount parallel_usdp_hyperevm_i.Prelude.Text.text_eq
refused = refl

unsigned_amount-decimal_text_example :
    (unsigned_amount (object deposit) (codes "assets") ≡ ok (codes "1250")
      ↔ (field_of (codes "assets") deposit ≡ some (text (codes "1250")))
        × IsDecimalOf (big_int (codes "1250")) (codes "1250"))
    × ((leading n : ℕ) → big_int (zeros leading ++ decimal_text n) ≡ n)
unsigned_amount-decimal_text_example =
    unsigned_amount-decimal_text deposit (codes "assets") (codes "1250")

abbrev is_accrual : EconomicClassification → ℕ
is_accrual susdp_accrued = 1
is_accrual _ = 0

-- 1 for an accrual.
abbrev weight : ProtocolEventInput → Classified → ℕ
weight event said = is_accrual said.classification

abbrev said_of : EconomicClassification → ℕ → Option Text → Option Text → Classified
said_of classification amount first second = record {
  classification = classification;
  amount_base_units = some (decimal_text amount);
  asset_address = some (codes "0xaa");
  primary_participant = first;
  secondary_participant = second;
}

abbrev roles : List (String × String)
roles = ("susdp-savings", "Accrued") ∷ ("susdp-savings", "Deposit") ∷ []

abbrev other_roles : List (String × String)
other_roles = ("susdp-savings", "Approval") ∷ ("susdp-savings", "Accrued") ∷ []

abbrev classified_events : List ClassifiedEvent
classified_events =
    record {
      event = event 3 "0xt" 2 "Accrued" accrued;
      said = said_of susdp_accrued 7 none none;
      transaction_event_count = 2;
      transaction_event_names = roles;
    }
    ∷ record {
      event = event 1 "0xt" 4 "Deposit" deposit;
      said = said_of (flow susdp_deposited) 1250 (some (codes "0xone")) (some (codes "0xtwo"));
      transaction_event_count = 2;
      transaction_event_names = roles;
    }
    ∷ record {
      event = event 2 "0xu" 1 "Accrued" accrued;
      said = said_of susdp_accrued 7 none none;
      transaction_event_count = 2;
      transaction_event_names = other_roles;
    }
    ∷ []

classified_run :
    classify_protocol_transactions begins_with_0x get_address deployments events
    ≡ ok classified_events
unfolding classify_protocol_transactions sort_by parallel_usdp_hyperevm_i.Prelude.Text.text_eq
    parallel_usdp_hyperevm_i.Prelude.Text.digits_of starts_with
classified_run = refl

classify_protocol_transactions-kept_example :
    sum_of (stored_weight weight) classified_events
    ≡ sum_of (own_weight begins_with_0x get_address deployments weight) events
classify_protocol_transactions-kept_example =
    classify_protocol_transactions-kept begins_with_0x get_address deployments weight events
      classified_events (λ event said. refl) classified_run

abbrev rebuild_options : RebuildOptions
rebuild_options = record {
  chain_id = 1;
  scope = "s";
  from_block = 5;
  to_block = 15;
  manifest_version = "m";
  calculation_version = "c";
}

abbrev rows : List CoverageRow
rows = record { chain_id = 1; scope = "s"; from_block = 0; to_block = 20 } ∷ []

abbrev deposits : Granularity → FlowAggregate
deposits granularity = record {
  granularity = granularity;
  bucket_start = 0;
  metric = susdp_deposited;
  amount_base_units = 1250;
  event_count = 1;
  unique_participants = 1;
}

abbrev stale_row : FlowAggregateRow
stale_row = flow_row rebuild_options (record (deposits hour) { amount_base_units = 3 })

abbrev before : FlowTables
before = record { economic_events = []; flow_aggregates = stale_row ∷ [] }

abbrev after : FlowTables
after = store_flows rebuild_options classified_events (deposits hour ∷ deposits day ∷ []) before

rebuilt_run :
    rebuild_flow_analytics begins_with_0x get_address deployments rebuild_options rows events before
    ≡ ok (
      rebuilt
          (record { complete = true; range_rows = 1; gaps = [] })
          4
          3
          2
          (record { unique_depositors = 1; unique_withdrawers = 0 }),
      after,
    )
unfolding rebuild_flow_analytics sort_by parallel_usdp_hyperevm_i.Prelude.Text.digits_of starts_with
    parallel_usdp_hyperevm_i.Flows.Payload.big_int_from
rebuilt_run = refl

rebuild_flow_analytics-IsStored_example :
    IsStored begins_with_0x get_address deployments rebuild_options susdp_deposited
      (source_amount begins_with_0x get_address deployments rebuild_options susdp_deposited
        (filter (is_source rebuild_options) events))
      before
      after
rebuild_flow_analytics-IsStored_example =
    rebuild_flow_analytics-IsStored begins_with_0x get_address deployments rebuild_options
      susdp_deposited rows events before after
      (record { complete = true; range_rows = 1; gaps = [] }) 4 3 2
      (record { unique_depositors = 1; unique_withdrawers = 0 }) rebuilt_run
