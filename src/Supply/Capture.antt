-- ===== src/Supply/Capture.antt =====
-- src/analytics/usdp-supply.ts: `captureGlobalUsdpSupply`, and src/protocol/usdp-chains.ts:
-- `configuredUsdpSupplyAdapters`. The chains are captured at the same time; they share no row of
-- the tables, so they are run one after the other here.
pub mod Chains
pub mod Complete
use parallel_usdp_hyperevm_i.Prelude.{
  ℕ, ◌/◌, String, Bool, List, [], ◌∷◌, ◌++◌, Option, none, some, map, Result, ok, err,
  if◌then◌else◌,
}
use parallel_usdp_hyperevm_i.Prelude.Text.{Text, codes, decimal_text}
use parallel_usdp_hyperevm_i.Rpc.Redaction.{provider_error_message}
use parallel_usdp_hyperevm_i.Rpc.Secrets.{redact_secrets}
use parallel_usdp_hyperevm_i.Supply.{
  UsdpSupplyComponent, SupplyAggregate, SupplyTables, persist_global_snapshot,
}
use parallel_usdp_hyperevm_i.Supply.Rpc.{
  SupplyRpcError, no_candidates, bad_attempts, all_failed, run_with_supply_rpc_failover,
}
use parallel_usdp_hyperevm_i.Supply.Component.{
  SupplyAdapter, SupplyClient, SupplyState, capture_usdp_supply_component,
}

pub data SupplyRpcSource : Type 0 where
  chain_override savings_chain_override public_default : SupplyRpcSource

abbrev pub is_public : SupplyRpcSource → Bool
is_public chain_override = Bool.false
is_public savings_chain_override = Bool.false
is_public public_default = Bool.true

pub record ConfiguredAdapter : Type 0 where
  pub adapter : SupplyAdapter
  pub rpc_urls : List String
  pub rpc_source : SupplyRpcSource

-- An adapter with its URLs: the chain's own, else the savings chain's, else the public ones. An
-- empty setting counts as none.
abbrev pub with_urls :
    SupplyAdapter → Option String → Option String → List String → ConfiguredAdapter
with_urls adapter (some url) savings public_urls = record {
  adapter = adapter;
  rpc_urls = url ∷ [];
  rpc_source = chain_override;
}
with_urls adapter none (some url) public_urls = record {
  adapter = adapter;
  rpc_urls = url ∷ [];
  rpc_source = savings_chain_override;
}
with_urls adapter none none public_urls = record {
  adapter = adapter;
  rpc_urls = public_urls;
  rpc_source = public_default;
}

module _ (explicit savings : ℕ → Option String)
    (public_supply_rpc_urls : SupplyAdapter → List String) where
  unfoldable pub configured_usdp_supply_adapters : List SupplyAdapter → List ConfiguredAdapter
  configured_usdp_supply_adapters adapters =
      map
        (λ (a : SupplyAdapter).
          with_urls a (explicit a.chain_id) (savings a.chain_id) (public_supply_rpc_urls a))
        adapters

pub record UsdpSupplyFailure : Type 0 where
  pub chain_id : ℕ
  pub message : Text

-- What a run keeps of each adapter.
pub data Attempt : Type 0 where
  captured : UsdpSupplyComponent → Attempt
  failed : UsdpSupplyFailure → Attempt

pub record SupplySettings : Type 0 where
  pub finality_lag : ℕ
  pub maximum_age_seconds : ℕ
  pub alignment_maximum_skew_seconds : ℕ
  pub attempts_per_url : ℕ

-- The message of the thrown error.
abbrev pub thrown_message : SupplyRpcError → Text
thrown_message no_candidates = codes "USDp supply RPC candidate list is empty"
thrown_message bad_attempts = codes "USDp supply attempts per RPC must be a positive integer"
thrown_message (all_failed urls attempts message) =
    codes "All "
    ++ decimal_text urls
    ++ codes " USDp supply RPC candidates failed after "
    ++ decimal_text attempts
    ++ codes " attempt(s) each: "
    ++ message

abbrev pub attempt_of :
    SupplyAdapter
    → List Text
    → SupplyState
    → Result SupplyRpcError (UsdpSupplyComponent × SupplyState)
    → Attempt × SupplyState
attempt_of adapter secrets state (ok (component, after)) = (captured component, after)
attempt_of adapter secrets state (err error) = (
  failed (record {
    chain_id = adapter.chain_id;
    message = redact_secrets (provider_error_message (thrown_message error)) secrets;
  }),
  state,
)

-- A client for each chain, number of calls made before for it, and URL.
module _ (client : ℕ → ℕ → String → SupplyClient) (settings : SupplySettings) (as_of : ℕ) where
  abbrev pub operation :
      SupplyAdapter → SupplyState → ℕ → String → Result Text (UsdpSupplyComponent × SupplyState)
  operation adapter state call rpc_url =
      capture_usdp_supply_component adapter (client adapter.chain_id call rpc_url)
        settings.finality_lag (as_of / 1000) settings.alignment_maximum_skew_seconds state

  abbrev pub capture_adapter : List Text → ConfiguredAdapter → SupplyState → Attempt × SupplyState
  capture_adapter secrets configured state = attempt_of configured.adapter secrets state (
      run_with_supply_rpc_failover (operation configured.adapter state) configured.rpc_urls
        settings.attempts_per_url)

  unfoldable pub capture_all :
      List Text → List ConfiguredAdapter → SupplyState → List Attempt × SupplyState
  unfolding run_with_supply_rpc_failover capture_usdp_supply_component
  capture_all secrets [] state = ([], state)
  capture_all secrets (configured ∷ rest) state =
      let (attempt, after) = capture_adapter secrets configured state in
      let (attempts, last) = capture_all secrets rest after in (attempt ∷ attempts, last)

abbrev pub components_of : List Attempt → List UsdpSupplyComponent
components_of [] = []
components_of (captured component ∷ attempts) = component ∷ components_of attempts
components_of (failed failure ∷ attempts) = components_of attempts

abbrev pub failures_of : List Attempt → List UsdpSupplyFailure
failures_of [] = []
failures_of (captured component ∷ attempts) = failures_of attempts
failures_of (failed failure ∷ attempts) = failure ∷ failures_of attempts

abbrev pub configured_chain : ConfiguredAdapter → ℕ
configured_chain configured = configured.adapter.chain_id

abbrev pub failure_chain : UsdpSupplyFailure → ℕ
failure_chain failure = failure.chain_id

-- The URLs that are not public.
abbrev pub secret_urls : List ConfiguredAdapter → List Text
secret_urls [] = []
secret_urls (configured ∷ rest) =
    (if is_public configured.rpc_source then [] else map codes configured.rpc_urls)
    ++ secret_urls rest

pub record GlobalSupply : Type 0 where
  pub aggregate : SupplyAggregate
  pub failures : List UsdpSupplyFailure
  pub state : SupplyState
  pub tables : SupplyTables

-- The expected chains are those of the adapters, all of which are configured.
unfoldable pub capture_global_usdp_supply :
    (ℕ → ℕ → String → SupplyClient)
    → SupplySettings
    → ℕ
    → List ConfiguredAdapter
    → ℕ
    → SupplyState
    → SupplyTables
    → GlobalSupply
unfolding capture_all persist_global_snapshot
capture_global_usdp_supply client settings as_of adapters id state tables =
    let (attempts, after) =
      capture_all client settings as_of (secret_urls adapters) adapters state in
    let (aggregate, after_tables) =
      persist_global_snapshot
        (record {
          components = components_of attempts;
          expected_chain_ids = map configured_chain adapters;
          failed_chain_ids = map failure_chain (failures_of attempts);
          as_of = as_of;
          maximum_age_seconds = settings.maximum_age_seconds;
          alignment_maximum_skew_seconds = settings.alignment_maximum_skew_seconds;
        })
        id tables in
    record {
      aggregate = aggregate;
      failures = failures_of attempts;
      state = after;
      tables = after_tables;
    }
