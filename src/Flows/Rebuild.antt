-- ===== src/Flows/Rebuild.antt =====
-- src/analytics/service.ts: `rebuildFlowAnalytics`. The table of the protocol events is joined with
-- the times of their blocks. The batches of the inserts hold all rows between them.
pub mod Rows
pub mod Totals
use parallel_usdp_hyperevm_i.Prelude.{
  ℕ, String, Bool, not, ◌&&◌, ◌||◌, ◌==◌, ltb, leb, List, [], ◌∷◌, ◌++◌, map, filter, length,
  sort_by, Result, ok, err, ◌>>=◌, if◌then◌else◌,
}
use text.Mathlib.Text.{◌==◌ as str_eq}
use parallel_usdp_hyperevm_i.Prelude.Text.{Text, text_eq}
use parallel_usdp_hyperevm_i.Planner.{PlanError}
use parallel_usdp_hyperevm_i.Status.{CoverageRow, Coverage, verify_coverage}
use parallel_usdp_hyperevm_i.Holders.Replay.{text_before}
use parallel_usdp_hyperevm_i.Flows.{
  FlowAggregate, FlowError, FlowParticipantSummary, hour, day, aggregate_native_flows,
  summarize_flow_participants,
}
use parallel_usdp_hyperevm_i.Flows.Classify.{
  ProtocolEventInput, ClassifyError, ClassifiedEvent, Deployments, classify_protocol_transactions,
  flow_event,
}

pub record RebuildOptions : Type 0 where
  pub chain_id : ℕ
  pub scope : String
  pub from_block : ℕ
  pub to_block : ℕ
  pub manifest_version : String
  pub calculation_version : String

-- A row of `economic_events`.
pub record EconomicEventRow : Type 0 where
  pub protocol_event_id : ℕ
  pub economic_event : ClassifiedEvent
  pub source : RebuildOptions

-- A row of `flow_aggregates`.
pub record FlowAggregateRow : Type 0 where
  pub aggregate : FlowAggregate
  pub chain_id : ℕ
  pub source_from_block : ℕ
  pub source_to_block : ℕ
  pub manifest_version : String
  pub calculation_version : String

pub record FlowTables : Type 0 where
  pub economic_events : List EconomicEventRow
  pub flow_aggregates : List FlowAggregateRow

pub data RebuildError : Type 0 where
  bad_range : PlanError → RebuildError
  bad_event : ClassifyError → RebuildError
  bad_flow : FlowError → RebuildError

pub data RebuildOutcome : Type 0 where
  coverage_incomplete : Coverage → RebuildOutcome
  rebuilt : Coverage → ℕ → ℕ → ℕ → FlowParticipantSummary → RebuildOutcome

abbrev pub or_error : {A E : Type 0} → (E → RebuildError) → Result E A → Result RebuildError A
or_error thrown (ok value) = ok value
or_error thrown (err error) = err (thrown error)

abbrev pub is_source : RebuildOptions → ProtocolEventInput → Bool
is_source options event =
    event.chain_id == options.chain_id
    && leb options.from_block event.block_number
    && leb event.block_number options.to_block

-- `order by pe.transaction_hash, pe.log_index`
abbrev pub source_before : ProtocolEventInput → ProtocolEventInput → Bool
source_before a b =
    text_before a.transaction_hash b.transaction_hash
    || (text_eq a.transaction_hash b.transaction_hash && ltb a.log_index b.log_index)

abbrev pub source_events : RebuildOptions → List ProtocolEventInput → List ProtocolEventInput
source_events options events = sort_by source_before (filter (is_source options) events)

-- `on conflict (protocol_event_id) do update`
unfoldable pub upsert_economic_event :
    EconomicEventRow → List EconomicEventRow → List EconomicEventRow
upsert_economic_event row [] = row ∷ []
upsert_economic_event row (other ∷ rest) =
    if other.protocol_event_id == row.protocol_event_id
    then row ∷ rest
    else other ∷ upsert_economic_event row rest

abbrev pub economic_row : RebuildOptions → ClassifiedEvent → EconomicEventRow
economic_row options classified_event = record {
  protocol_event_id = classified_event.event.id;
  economic_event = classified_event;
  source = options;
}

unfoldable pub upsert_economic_events :
    RebuildOptions → List ClassifiedEvent → List EconomicEventRow → List EconomicEventRow
unfolding upsert_economic_event
upsert_economic_events options [] rows = rows
upsert_economic_events options (event ∷ events) rows =
    upsert_economic_events options events (upsert_economic_event (economic_row options event) rows)

-- The rows that the run replaces.
abbrev pub is_of_run : RebuildOptions → FlowAggregateRow → Bool
is_of_run options row =
    row.chain_id == options.chain_id
    && row.source_from_block == options.from_block
    && row.source_to_block == options.to_block
    && str_eq row.manifest_version options.manifest_version
    && str_eq row.calculation_version options.calculation_version

abbrev pub flow_row : RebuildOptions → FlowAggregate → FlowAggregateRow
flow_row options aggregate = record {
  aggregate = aggregate;
  chain_id = options.chain_id;
  source_from_block = options.from_block;
  source_to_block = options.to_block;
  manifest_version = options.manifest_version;
  calculation_version = options.calculation_version;
}

abbrev pub replace_aggregates :
    RebuildOptions → List FlowAggregate → List FlowAggregateRow → List FlowAggregateRow
replace_aggregates options aggregates rows =
    filter (λ row. not (is_of_run options row)) rows ++ map (flow_row options) aggregates

abbrev pub store_flows :
    RebuildOptions → List ClassifiedEvent → List FlowAggregate → FlowTables → FlowTables
store_flows options economic_events aggregates tables = record {
  economic_events = upsert_economic_events options economic_events tables.economic_events;
  flow_aggregates = replace_aggregates options aggregates tables.flow_aggregates;
}

module _ (is_address : Text → Bool) (get_address : Text → Text) (deployments : Deployments) where
  -- What follows a complete coverage; the last step is one transaction.
  unfoldable pub rebuild_covered :
      Coverage
      → RebuildOptions
      → List ProtocolEventInput
      → FlowTables
      → Result RebuildError (RebuildOutcome × FlowTables)
  unfolding classify_protocol_transactions aggregate_native_flows summarize_flow_participants
      flow_event upsert_economic_events
  rebuild_covered coverage options source tables =
      or_error bad_event (classify_protocol_transactions is_address get_address deployments source)
      >>= λ economic_events.
          or_error bad_flow (aggregate_native_flows (map flow_event economic_events) hour)
          >>= λ hours.
              or_error bad_flow (aggregate_native_flows (map flow_event economic_events) day)
              >>= λ days. ok (
                rebuilt coverage (length source) (length economic_events) (length (hours ++ days))
                    (summarize_flow_participants (map flow_event economic_events)),
                store_flows options economic_events (hours ++ days) tables,
              )

  unfoldable pub rebuild_flow_analytics :
      RebuildOptions
      → List CoverageRow
      → List ProtocolEventInput
      → FlowTables
      → Result RebuildError (RebuildOutcome × FlowTables)
  unfolding verify_coverage rebuild_covered text_before
  rebuild_flow_analytics options coverage_rows events tables =
      or_error bad_range (
        verify_coverage coverage_rows options.scope options.from_block options.to_block
          options.chain_id)
      >>= λ coverage.
          if not coverage.complete
          then ok (coverage_incomplete coverage, tables)
          else rebuild_covered coverage options (source_events options events) tables
