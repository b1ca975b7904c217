-- ===== src/Flows/Classify.antt =====
-- src/analytics/economic-events.ts: `classifyEvent` and `classifyProtocolTransactions`. The checks
-- of an address are those of the library viem; the deployments are those of
-- src/protocol/assets.ts, of which `findParallelDeployment` takes the first of a chain.
pub mod Kept
use parallel_usdp_hyperevm_i.Prelude.{
  ℕ, String, Bool, ◌&&◌, ◌==◌, ltb, List, [], ◌∷◌, ◌++◌, Option, none, some, map, Result, ok, err,
  ◌>>=◌, if◌then◌else◌, sort_by, length,
}
use text.Mathlib.Text.{◌==◌ as str_eq}
use parallel_usdp_hyperevm_i.Prelude.Text.{Text, codes, text_eq, to_lower_case}
use parallel_usdp_hyperevm_i.Flows.{
  usdp_issued, usdp_burned_for_collateral, usdp_redeemed, susdp_deposited, susdp_withdrawn,
  EconomicClassification, flow, susdp_accrued, susdp_rate_updated, susdp_max_rate_updated,
  susdp_pause_toggled, susdp_transfer, usdp_transfer, parallelizer_swap_other,
  ClassifiedEconomicEvent,
}
use parallel_usdp_hyperevm_i.Flows.Payload.{
  Payload, PayloadError, unsigned_amount, normalized_address, big_int,
}

pub record ProtocolEventInput : Type 0 where
  pub id : ℕ
  pub chain_id : ℕ
  pub block_number : ℕ
  pub block_timestamp : ℕ
  pub transaction_hash : Text
  pub log_index : ℕ
  pub contract_role : String
  pub event_name : String
  pub payload : Payload

pub data ClassifyError : Type 0 where
  bad_payload : PayloadError → ClassifyError
  missing_deployment : ℕ → ClassifyError
  swap_of_usdp_with_itself : ClassifyError

-- What the classification says of an event.
pub record Classified : Type 0 where
  pub classification : EconomicClassification
  pub amount_base_units : Option Text
  pub asset_address : Option Text
  pub primary_participant : Option Text
  pub secondary_participant : Option Text

pub record Deployment : Type 0 where
  pub chain_id : ℕ
  pub address : Text

pub record Deployments : Type 0 where
  pub usdp : List Deployment
  pub susdp : List Deployment

unfoldable pub find_parallel_deployment : List Deployment → ℕ → Option Deployment
find_parallel_deployment [] chain_id = none
find_parallel_deployment (deployment ∷ rest) chain_id =
    if deployment.chain_id == chain_id
    then some deployment
    else find_parallel_deployment rest chain_id

abbrev pub classified :
    EconomicClassification → Option Text → Option Text → Option Text → Option Text → Classified
classified classification amount asset primary secondary = record {
  classification = classification;
  amount_base_units = amount;
  asset_address = asset;
  primary_participant = primary;
  secondary_participant = secondary;
}

abbrev pub or_bad_payload : {A : Type 0} → Result PayloadError A → Result ClassifyError A
or_bad_payload (ok value) = ok value
or_bad_payload (err error) = err (bad_payload error)

abbrev pub amount_only :
    Payload
    → EconomicClassification
    → String
    → Option Text
    → Result ClassifyError (Option Classified)
amount_only payload classification key asset =
    or_bad_payload (unsigned_amount payload (codes key)) >>= λ amount.
    ok (some (classified classification (some amount) asset none none))

module _ (is_address : Text → Bool) (get_address : Text → Text) where
  abbrev pub address_of : Payload → String → Result ClassifyError Text
  address_of payload key =
      or_bad_payload (normalized_address is_address get_address payload (codes key))

  abbrev pub between :
      Payload
      → EconomicClassification
      → Option Text
      → Option Text
      → String
      → String
      → Result ClassifyError (Option Classified)
  between payload classification amount asset primary secondary =
      address_of payload primary >>= λ first. address_of payload secondary >>= λ second.
      ok (some (classified classification amount asset (some first) (some second)))

  abbrev pub moved :
      Payload
      → EconomicClassification
      → String
      → Text
      → String
      → String
      → Result ClassifyError (Option Classified)
  moved payload classification key asset primary secondary =
      or_bad_payload (unsigned_amount payload (codes key)) >>= λ amount.
      between payload classification (some amount) (some asset) primary secondary

  abbrev pub classify_savings :
      Payload → String → Text → Text → Result ClassifyError (Option Classified)
  classify_savings payload name usdp susdp =
      if str_eq name "Deposit"
      then moved payload (flow susdp_deposited) "assets" usdp "owner" "sender"
      else if str_eq name "Withdraw"
      then moved payload (flow susdp_withdrawn) "assets" usdp "owner" "receiver"
      else if str_eq name "Accrued"
      then amount_only payload susdp_accrued "interest" (some usdp)
      else if str_eq name "RateUpdated"
      then amount_only payload susdp_rate_updated "newRate" none
      else if str_eq name "MaxRateUpdated"
      then amount_only payload susdp_max_rate_updated "newMaxRate" none
      else if str_eq name "ToggledPause"
      then amount_only payload susdp_pause_toggled "pauseStatus" none
      else if str_eq name "Transfer"
      then moved payload susdp_transfer "value" susdp "from" "to"
      else ok none

  abbrev pub classify_swap : Payload → Text → Result ClassifyError (Option Classified)
  classify_swap payload usdp = address_of payload "tokenIn" >>= λ token_in.
      address_of payload "tokenOut" >>= λ token_out.
      let is_issue = text_eq token_out usdp in
      let is_burn = text_eq token_in usdp in
      if is_issue && is_burn
      then err swap_of_usdp_with_itself
      else if is_issue
      then moved payload (flow usdp_issued) "amountOut" usdp "from" "to"
      else if is_burn
      then moved payload (flow usdp_burned_for_collateral) "amountIn" usdp "from" "to"
      else between payload parallelizer_swap_other none none "from" "to"

  abbrev pub classify_parallelizer :
      Payload → String → Text → Result ClassifyError (Option Classified)
  classify_parallelizer payload name usdp =
      if str_eq name "Swap"
      then classify_swap payload usdp
      else if str_eq name "Redeemed"
      then moved payload (flow usdp_redeemed) "amount" usdp "from" "to"
      else ok none

  abbrev pub classify_with :
      ProtocolEventInput
      → Option Deployment
      → Option Deployment
      → Result ClassifyError (Option Classified)
  classify_with event (some usdp) (some susdp) =
      let usdp_address = to_lower_case usdp.address in
      if str_eq event.contract_role "susdp-savings"
      then classify_savings event.payload event.event_name usdp_address
          (to_lower_case susdp.address)
      else if str_eq event.contract_role "usdp-token" && str_eq event.event_name "Transfer"
      then moved event.payload usdp_transfer "value" usdp_address "from" "to"
      else if str_eq event.contract_role "usdp-parallelizer"
      then classify_parallelizer event.payload event.event_name usdp_address
      else ok none
  classify_with event none susdp = err (missing_deployment event.chain_id)
  classify_with event (some usdp) none = err (missing_deployment event.chain_id)

  unfoldable pub classify_event :
      Deployments → ProtocolEventInput → Result ClassifyError (Option Classified)
  unfolding find_parallel_deployment unsigned_amount normalized_address to_lower_case
  classify_event deployments event =
      classify_with event (find_parallel_deployment deployments.usdp event.chain_id)
        (find_parallel_deployment deployments.susdp event.chain_id)

-- A classified event, with the events of its transaction: their number, and the role and name
-- of each.
pub record ClassifiedEvent : Type 0 where
  pub event : ProtocolEventInput
  pub said : Classified
  pub transaction_event_count : ℕ
  pub transaction_event_names : List (String × String)

abbrev pub with_lower_hash : ProtocolEventInput → ProtocolEventInput
with_lower_hash event = record event { transaction_hash = to_lower_case event.transaction_hash }

-- `transactions`: the events of each hash, the hashes in the order in which they are first met.
pub record Transaction : Type 0 where
  pub hash : Text
  pub events : List ProtocolEventInput

unfoldable pub push_event : ProtocolEventInput → List Transaction → List Transaction
push_event event [] = record { hash = event.transaction_hash; events = event ∷ [] } ∷ []
push_event event (transaction ∷ rest) =
    if text_eq transaction.hash event.transaction_hash
    then record transaction { events = transaction.events ++ event ∷ [] } ∷ rest
    else transaction ∷ push_event event rest

unfoldable pub group_events : List ProtocolEventInput → List Transaction → List Transaction
unfolding push_event to_lower_case
group_events [] transactions = transactions
group_events (event ∷ events) transactions =
    group_events events (push_event (with_lower_hash event) transactions)

abbrev pub by_log_index : ProtocolEventInput → ProtocolEventInput → Bool
by_log_index left right = ltb left.log_index right.log_index

abbrev pub role_and_name : ProtocolEventInput → String × String
role_and_name event = (event.contract_role, event.event_name)

abbrev pub cons_classified :
    ProtocolEventInput
    → ℕ
    → List (String × String)
    → Option Classified
    → List ClassifiedEvent
    → List ClassifiedEvent
cons_classified event count names none rest = rest
cons_classified event count names (some said) rest =
    record {
      event = event;
      said = said;
      transaction_event_count = count;
      transaction_event_names = names;
    }
    ∷ rest

module _ (is_address : Text → Bool) (get_address : Text → Text) (deployments : Deployments) where
  unfoldable pub classify_all :
      ℕ
      → List (String × String)
      → List ProtocolEventInput
      → Result ClassifyError (List ClassifiedEvent)
  unfolding classify_event
  classify_all count names [] = ok []
  classify_all count names (event ∷ events) =
      classify_event is_address get_address deployments event >>= λ said.
      classify_all count names events >>= λ rest. ok (cons_classified event count names said rest)

  abbrev pub classify_transaction : Transaction → Result ClassifyError (List ClassifiedEvent)
  classify_transaction transaction =
      let events = sort_by by_log_index transaction.events in
      classify_all (length events) (map role_and_name events) events

  unfoldable pub classify_transactions :
      List Transaction → Result ClassifyError (List ClassifiedEvent)
  unfolding classify_all
  classify_transactions [] = ok []
  classify_transactions (transaction ∷ transactions) = classify_transaction transaction >>= λ front.
      classify_transactions transactions >>= λ rest. ok (front ++ rest)

  unfoldable pub classify_protocol_transactions :
      List ProtocolEventInput → Result ClassifyError (List ClassifiedEvent)
  unfolding classify_transactions group_events
  classify_protocol_transactions events = classify_transactions (group_events events [])

abbrev pub big_int_or_null : Option Text → Option ℕ
big_int_or_null none = none
big_int_or_null (some digits) = some (big_int digits)

-- The fields of a classified event that the aggregation reads, its amount as a number.
unfoldable pub flow_event : ClassifiedEvent → ClassifiedEconomicEvent
flow_event classified_event = record {
  classification = classified_event.said.classification;
  amount_base_units = big_int_or_null classified_event.said.amount_base_units;
  primary_participant = classified_event.said.primary_participant;
  block_timestamp = classified_event.event.block_timestamp;
}
