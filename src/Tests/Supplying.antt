-- ===== src/Tests/Supplying.antt =====
-- The global supply of USDp, over three chains.
use parallel_usdp_hyperevm_i.Prelude.{
  unseen, ◌*◌, sort_by, ℕ, String, ◌≡◌, ◌≢◌, ◌⊎◌, ◌++◌, refl, Bool, true, false, List, [], ◌∷◌,
  Option, none, some, Result, ok, err, arith, map, filter, sum_of, ◌==◌, if◌then◌else◌,
}
use parallel_usdp_hyperevm_i.Prelude.Text.{Text, codes}
use parallel_usdp_hyperevm_i.Multichain.{complete}
use parallel_usdp_hyperevm_i.Supply.{
  SupplyOptions, UsdpSupplyComponent, SupplyTables, persist_global_snapshot,
}
use parallel_usdp_hyperevm_i.Supply.Accounted.{
  expected_row, is_counted, persist_global_snapshot-accounts,
}
use parallel_usdp_hyperevm_i.Supply.Rpc.{run_with_supply_rpc_failover}
use parallel_usdp_hyperevm_i.Supply.Rpc.Live.{Returns, run_with_supply_rpc_failover-Returns}
use parallel_usdp_hyperevm_i.Supply.Component.{
  ClientBlock, TokenReads, SupplyClient, SupplyState, rpc_finalized,
}
use parallel_usdp_hyperevm_i.Supply.Capture.{
  ConfiguredAdapter, SupplySettings, GlobalSupply, capture_global_usdp_supply, chain_override,
}
use parallel_usdp_hyperevm_i.Supply.Capture.Complete.{capture_global_usdp_supply-complete}

abbrev component : ℕ → ℕ → Bool → UsdpSupplyComponent
component chain timestamp verified = record {
  asset_snapshot_id = chain;
  chain_id = chain;
  block_timestamp = timestamp;
  total_supply = chain * 10;
  metadata_verified = verified;
}

-- The second is stale, the third has the wrong metadata.
abbrev options : SupplyOptions
options = record {
  components = component 1 100000 true ∷ component 2 10000 true ∷ component 3 100000 false ∷ [];
  expected_chain_ids = 1 ∷ 2 ∷ 3 ∷ 4 ∷ [];
  failed_chain_ids = [];
  as_of = 110000;
  maximum_age_seconds = 60;
  alignment_maximum_skew_seconds = 30;
}

abbrev no_tables : SupplyTables
no_tables = record { snapshots = []; components = [] }

persist_global_snapshot-accounts_example :
    (let (aggregate, after) = persist_global_snapshot options 5 no_tables in
      (after.components ≡ no_tables.components ++ map (expected_row options 5) options.components)
      × (aggregate.candidate_total_supply
          ≡ sum_of (λ c. c.total_supply) (filter (is_counted options) options.components)))
persist_global_snapshot-accounts_example =
    persist_global_snapshot-accounts options 5 no_tables (refl, (refl, (refl, tt)))

-- The second URL answers at its second attempt.
abbrev operation : ℕ → String → Result Text ℕ
operation call url = if call == 3 then ok 42 else err (codes "busy")

run_with_supply_rpc_failover-Returns_example :
    Returns operation (run_with_supply_rpc_failover operation ("a" ∷ "b" ∷ []) 2)
run_with_supply_rpc_failover-Returns_example =
    run_with_supply_rpc_failover-Returns operation 2 ("a" ∷ []) "b" [] 1 42 (omega arith) refl

abbrev block : ClientBlock
block = record {
  number = some 7;
  hash = some (codes "0xAB");
  parent_hash = codes "0xAA";
  timestamp = 100;
}

abbrev reads : TokenReads
reads = record {
  bytecode = some (codes "0x60");
  observed_name = codes "USDp";
  observed_symbol = codes "USDp";
  observed_decimals = 18;
  total_supply = 1000;
}

-- The chain 2 has no answer.
abbrev client : ℕ → ℕ → String → SupplyClient
client chain call url = record {
  finalized = if chain == 2 then err (codes "busy") else ok block;
  block_number = if chain == 2 then err (codes "busy") else ok 9;
  block_at = λ number. ok block;
  read = λ number. ok reads;
}

abbrev adapter : ℕ → ConfiguredAdapter
adapter chain = record {
  adapter = record { chain_id = chain; finality = rpc_finalized; manifest_version = "m" };
  rpc_urls = "https://rpc.example" ∷ [];
  rpc_source = chain_override;
}

abbrev settings : SupplySettings
settings = record {
  finality_lag = 2;
  maximum_age_seconds = 60;
  alignment_maximum_skew_seconds = 30;
  attempts_per_url = 1;
}

abbrev empty : SupplyState
empty = record { blocks = []; asset_snapshots = []; evidence = []; next_id = 1 }

abbrev run : GlobalSupply
run =
    capture_global_usdp_supply client settings 110000 (adapter 1 ∷ adapter 2 ∷ []) 5 empty no_tables

one_counted : run.aggregate.candidate_total_supply ≡ 1000
unfolding capture_global_usdp_supply parallel_usdp_hyperevm_i.Prelude.Text.text_eq
one_counted = refl

one_failed : run.aggregate.failed_chain_ids ≡ 2 ∷ []
unfolding capture_global_usdp_supply sort_by unseen parallel_usdp_hyperevm_i.Prelude.Text.text_eq
one_failed = refl

capture_global_usdp_supply-complete_example :
    (run.aggregate.missing_chain_ids ≡ [])
    × ((run.failures ≡ []) ⊎ (run.aggregate.coverage ≢ complete))
capture_global_usdp_supply-complete_example =
    capture_global_usdp_supply-complete client settings 110000 (adapter 1 ∷ adapter 2 ∷ []) 5 empty
      no_tables
