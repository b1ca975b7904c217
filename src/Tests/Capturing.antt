-- ===== src/Tests/Capturing.antt =====
-- The capture of a chain's savings state, at a client of one block.
use parallel_usdp_hyperevm_i.Prelude.{
  ℕ, ◌≡◌, refl, some, none, ok, err, [], ◌∷◌, ◌+◌, ◌>>=◌, length,
}
use parallel_usdp_hyperevm_i.Prelude.Text.{text_eq, to_lower_case, Text, codes}
use parallel_usdp_hyperevm_i.Holders.{zero_address}
use parallel_usdp_hyperevm_i.Savings.{calculate_pending_yield}
use parallel_usdp_hyperevm_i.Supply.Component.{BlockRow, rpc_finalized}
use parallel_usdp_hyperevm_i.Multichain.Tables.{SavingsStateRead, SavingsTables, SavingsSnapshotRow}
use parallel_usdp_hyperevm_i.Multichain.Capture.{
  with_block, SavingsReads, SavingsAdapter, SavingsClient, block_hash_drift,
  capture_savings_chain_snapshot,
}
use parallel_usdp_hyperevm_i.Multichain.Capture.Stored.{
  IsCaptured, capture_savings_chain_snapshot-IsCaptured,
}

abbrev state : ℕ → SavingsStateRead
state actual = record {
  asset = codes "0xA1";
  usdp_total_supply = 900;
  susdp_total_assets = 120;
  susdp_actual_assets = actual;
  susdp_total_supply = 100;
  susdp_share_price_usdp = 12;
  susdp_rate = 3;
  susdp_last_update = 40;
  susdp_estimated_apy = 5;
  susdp_max_rate = 9;
  susdp_pause_state = 0;
}

abbrev adapter : SavingsAdapter
adapter = record {
  chain_id = 999;
  usdp_address = codes "0xa1";
  susdp_address = codes "0xb2";
  finality = rpc_finalized;
  manifest_version = "m";
}

abbrev client : Text → ℕ → SavingsClient
client hash actual = record {
  finalized =
      ok (record { number = some 7; hash = some hash; parent_hash = codes "0xC0"; timestamp = 50 });
  block_number = ok 9;
  block_at = λ number. err (codes "unknown block");
  state_at = λ number. ok (state actual);
  storage_at = λ address number. err (codes "no storage");
}

abbrev empty_tables : SavingsTables
empty_tables = record { blocks = []; assets = []; snapshots = []; next_asset_id = 1; next_id = 1 }

abbrev block_row : BlockRow
block_row = record {
  chain_id = 999;
  number = 7;
  hash = codes "0xab";
  parent_hash = codes "0xc0";
  timestamp = 50000;
}

abbrev reads : SavingsReads
reads = record {
  number = 7;
  hash = codes "0xAB";
  parent_hash = codes "0xC0";
  timestamp = 50;
  state = state 110;
  usdp_implementation = zero_address;
  susdp_implementation = zero_address;
  pending_yield = 10;
}

abbrev captured : SavingsSnapshotRow × ℕ × SavingsTables
captured = with_block adapter "c" reads empty_tables (block_row ∷ [])

capture-captured :
    capture_savings_chain_snapshot adapter "c"
      (λ address. address)
      (client (codes "0xAB") 110)
      2
      none
      empty_tables
    ≡ ok captured
unfolding capture_savings_chain_snapshot calculate_pending_yield to_lower_case text_eq
capture-captured = refl

-- A second capture of the block stores nothing new.
capture_again :
    (capture_savings_chain_snapshot adapter "c"
        (λ address. address)
        (client (codes "0xaB") 110)
        2
        none
        captured.2
      >>= λ result. ok (length result.2.snapshots + length result.2.assets))
    ≡ ok 3
unfolding capture_savings_chain_snapshot calculate_pending_yield to_lower_case text_eq
capture_again = refl

capture_other_hash :
    capture_savings_chain_snapshot adapter "c"
      (λ address. address)
      (client (codes "0xAC") 110)
      2
      none
      captured.2
    ≡ err block_hash_drift
unfolding capture_savings_chain_snapshot calculate_pending_yield to_lower_case text_eq
capture_other_hash = refl

capture_savings_chain_snapshot-IsCaptured_example :
    IsCaptured captured.0 captured.1 empty_tables captured.2
    × (captured.0.susdp_pending_yield + 110 ≡ 120)
capture_savings_chain_snapshot-IsCaptured_example =
    capture_savings_chain_snapshot-IsCaptured adapter "c" (λ address. address)
      (client (codes "0xAB") 110) 2 none empty_tables captured.2 captured.0 captured.1
      capture-captured
