-- ===== src/Flows.antt =====
-- src/analytics/economic-events.ts: `aggregateNativeFlows` and `summarizeFlowParticipants`, over
-- the fields of a classified event that they read. Times are milliseconds.
pub mod Conserved
pub mod Payload
pub mod Classify
pub mod Rebuild
use parallel_usdp_hyperevm_i.Prelude.{
  ℕ, ◌+◌, ◌*◌, ◌/◌, Bool, true, false, ◌&&◌, ◌||◌, ◌==◌, ltb, List, [], ◌∷◌, Option, none, some,
  length, map, if◌then◌else◌, Result, ok, err, ◌>>=◌, sort_by,
}
use parallel_usdp_hyperevm_i.Prelude.Text.{Text}
use parallel_usdp_hyperevm_i.Ingest.Store.{is_nonempty}
use parallel_usdp_hyperevm_i.Holders.Replay.{add_address}

pub data NativeFlowMetric : Type 0 where
  usdp_issued usdp_burned_for_collateral usdp_redeemed susdp_deposited susdp_withdrawn :
      NativeFlowMetric

-- `flow` holds the classifications that are native flow metrics.
pub data EconomicClassification : Type 0 where
  flow : NativeFlowMetric → EconomicClassification
  susdp_accrued susdp_rate_updated susdp_max_rate_updated susdp_pause_toggled susdp_transfer :
      EconomicClassification
  usdp_transfer parallelizer_swap_other : EconomicClassification

pub data Granularity : Type 0 where
  hour day : Granularity

pub record ClassifiedEconomicEvent : Type 0 where
  pub classification : EconomicClassification
  pub amount_base_units : Option ℕ
  pub primary_participant : Option Text
  pub block_timestamp : ℕ

-- The place of a metric in the order of their names.
abbrev pub metric_rank : NativeFlowMetric → ℕ
metric_rank susdp_deposited = 0
metric_rank susdp_withdrawn = 1
metric_rank usdp_burned_for_collateral = 2
metric_rank usdp_issued = 3
metric_rank usdp_redeemed = 4

abbrev pub same_metric : NativeFlowMetric → NativeFlowMetric → Bool
same_metric a b = metric_rank a == metric_rank b

abbrev pub bucket_length : Granularity → ℕ
bucket_length hour = 3600000
bucket_length day = 86400000

-- The hour or the day in which a time lies.
abbrev pub bucket_start_of : Granularity → ℕ → ℕ
bucket_start_of granularity timestamp =
    timestamp / bucket_length granularity * bucket_length granularity

pub record FlowBucket : Type 0 where
  pub bucket_start : ℕ
  pub metric : NativeFlowMetric
  pub amount : ℕ
  pub event_count : ℕ
  pub participants : List Text

-- `if (event.primaryParticipant) ….add(event.primaryParticipant)`
abbrev pub add_participant : Option Text → List Text → List Text
add_participant none set = set
add_participant (some participant) set =
    if is_nonempty participant then add_address participant set else set

abbrev pub counted_bucket : FlowBucket → ℕ → Option Text → FlowBucket
counted_bucket bucket amount participant = record bucket {
  amount = bucket.amount + amount;
  event_count = bucket.event_count + 1;
  participants = add_participant participant bucket.participants;
}

abbrev pub empty_bucket : ℕ → NativeFlowMetric → FlowBucket
empty_bucket start metric = record {
  bucket_start = start;
  metric = metric;
  amount = 0;
  event_count = 0;
  participants = [];
}

abbrev pub is_bucket : ℕ → NativeFlowMetric → FlowBucket → Bool
is_bucket start metric bucket = bucket.bucket_start == start && same_metric bucket.metric metric

unfoldable pub add_to_bucket :
    ℕ → NativeFlowMetric → ℕ → Option Text → List FlowBucket → List FlowBucket
unfolding add_address
add_to_bucket start metric amount participant [] =
    counted_bucket (empty_bucket start metric) amount participant ∷ []
add_to_bucket start metric amount participant (bucket ∷ rest) =
    if is_bucket start metric bucket
    then counted_bucket bucket amount participant ∷ rest
    else bucket ∷ add_to_bucket start metric amount participant rest

pub data FlowError : Type 0 where
  missing_amount : NativeFlowMetric → FlowError

abbrev pub add_flow :
    Granularity
    → NativeFlowMetric
    → Option ℕ
    → ℕ
    → Option Text
    → List FlowBucket
    → Result FlowError (List FlowBucket)
add_flow granularity metric none timestamp participant buckets = err (missing_amount metric)
add_flow granularity metric (some amount) timestamp participant buckets =
    ok (add_to_bucket (bucket_start_of granularity timestamp) metric amount participant buckets)

abbrev pub add_classified :
    Granularity
    → EconomicClassification
    → ClassifiedEconomicEvent
    → List FlowBucket
    → Result FlowError (List FlowBucket)
add_classified granularity (flow metric) event buckets =
    add_flow granularity metric event.amount_base_units event.block_timestamp
      event.primary_participant buckets
add_classified granularity _ event buckets = ok buckets

unfoldable pub collect_flows :
    Granularity
    → List ClassifiedEconomicEvent
    → List FlowBucket
    → Result FlowError (List FlowBucket)
unfolding add_to_bucket
collect_flows granularity [] buckets = ok buckets
collect_flows granularity (event ∷ rest) buckets =
    add_classified granularity event.classification event buckets >>= collect_flows granularity rest

abbrev pub bucket_before : FlowBucket → FlowBucket → Bool
bucket_before left right =
    ltb left.bucket_start right.bucket_start
    || (left.bucket_start == right.bucket_start
        && ltb (metric_rank left.metric) (metric_rank right.metric))

pub record FlowAggregate : Type 0 where
  pub granularity : Granularity
  pub bucket_start : ℕ
  pub metric : NativeFlowMetric
  pub amount_base_units : ℕ
  pub event_count : ℕ
  pub unique_participants : ℕ

abbrev pub flow_aggregate : Granularity → FlowBucket → FlowAggregate
flow_aggregate granularity bucket = record {
  granularity = granularity;
  bucket_start = bucket.bucket_start;
  metric = bucket.metric;
  amount_base_units = bucket.amount;
  event_count = bucket.event_count;
  unique_participants = length bucket.participants;
}

unfoldable pub aggregate_native_flows :
    List ClassifiedEconomicEvent → Granularity → Result FlowError (List FlowAggregate)
unfolding collect_flows
aggregate_native_flows events granularity = collect_flows granularity events [] >>= λ buckets.
    ok (map (flow_aggregate granularity) (sort_by bucket_before buckets))

abbrev pub is_deposit : EconomicClassification → Bool
is_deposit (flow susdp_deposited) = true
is_deposit _ = false

abbrev pub is_withdrawal : EconomicClassification → Bool
is_withdrawal (flow susdp_withdrawn) = true
is_withdrawal _ = false

unfoldable pub participants_of :
    (EconomicClassification → Bool) → List ClassifiedEconomicEvent → List Text → List Text
unfolding add_address
participants_of counts [] set = set
participants_of counts (event ∷ rest) set =
    participants_of counts rest
      (if counts event.classification then add_participant event.primary_participant set else set)

pub record FlowParticipantSummary : Type 0 where
  pub unique_depositors : ℕ
  pub unique_withdrawers : ℕ

unfoldable pub summarize_flow_participants : List ClassifiedEconomicEvent → FlowParticipantSummary
unfolding participants_of
summarize_flow_participants events = record {
  unique_depositors = length (participants_of is_deposit events []);
  unique_withdrawers = length (participants_of is_withdrawal events []);
}
