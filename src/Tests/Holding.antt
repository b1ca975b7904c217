-- ===== src/Tests/Holding.antt =====
-- Transfers replayed: a mint, a transfer and a burn, given out of order, and one that overdraws.
use parallel_usdp_hyperevm_i.Prelude.{some, [], ◌∷◌, ◌++◌, ◌≡◌, ◌+◌, refl, ℕ, List, ok, err}
use parallel_usdp_hyperevm_i.Prelude.Int.{pos}
use parallel_usdp_hyperevm_i.Prelude.Text.{to_lower_case, Text, codes}
use parallel_usdp_hyperevm_i.Holders.{
  ParallelAssetId, usdp, susdp, TransferReplayEvent, zero_address, became_negative,
}
use parallel_usdp_hyperevm_i.Holders.Replay.{replay_holder_transfers, FallbackWindow, ReplayResult}
use parallel_usdp_hyperevm_i.Holders.Conserved.{held}
use parallel_usdp_hyperevm_i.Holders.Minted.{held-replay_holder_transfers}

abbrev alice : Text
alice = codes "0xAAAAAAAAAAaaaaaaaaaaaaaaaaaaaaaaaaaaaaaa"

abbrev bob : Text
bob = codes "0xbbbbbbbbbbbbbbbbbbbbbbbbbbbbbbbbbbbbbbbb"

abbrev sent : ParallelAssetId → ℕ → ℕ → Text → Text → ℕ → TransferReplayEvent
sent asset block log_index from to value = record {
  asset_id = asset;
  block_number = block;
  block_timestamp = 1000 + block;
  log_index = log_index;
  from = from;
  to = to;
  value = pos value;
}

abbrev transfers : List TransferReplayEvent
transfers =
    sent usdp 7 3 alice bob 40
    ∷ sent usdp 5 9 zero_address alice 100
    ∷ sent usdp 7 4 bob zero_address 15
    ∷ []

abbrev fallback : FallbackWindow
fallback = record { start = 0; end = 1 }

abbrev replayed : ReplayResult
replayed = record {
  balances =
      record {
        asset_id = usdp;
        holder_address = to_lower_case alice;
        balance = 60;
        first_positive_block = some 5;
        last_changed_block = 7;
      }
      ∷ record {
        asset_id = usdp;
        holder_address = bob;
        balance = 25;
        first_positive_block = some 7;
        last_changed_block = 7;
      }
      ∷ [];
  usdp_activity = record {
    asset_id = usdp;
    window_start = 1005;
    window_end = 1007;
    transfer_volume = 40;
    minted_volume = 100;
    burned_volume = 15;
    transfer_count = 1;
    unique_senders = 2;
    unique_receivers = 2;
    unique_participants = 2;
    new_holders = 2;
    active_holders = 2;
  };
  susdp_activity = record {
    asset_id = susdp;
    window_start = 0;
    window_end = 1;
    transfer_volume = 0;
    minted_volume = 0;
    burned_volume = 0;
    transfer_count = 0;
    unique_senders = 0;
    unique_receivers = 0;
    unique_participants = 0;
    new_holders = 0;
    active_holders = 0;
  };
}

replays : replay_holder_transfers transfers fallback ≡ ok replayed
unfolding replay_holder_transfers to_lower_case parallel_usdp_hyperevm_i.Prelude.sort_by
    parallel_usdp_hyperevm_i.Prelude.Int.◌+ℤ◌ parallel_usdp_hyperevm_i.Prelude.Int.◌-ℤ◌
replays = refl

overdraws :
    replay_holder_transfers (sent usdp 5 1 bob alice 1 ∷ []) fallback
    ≡ err (became_negative usdp bob 5)
unfolding replay_holder_transfers parallel_usdp_hyperevm_i.Prelude.sort_by
    parallel_usdp_hyperevm_i.Prelude.Text.to_lower_case parallel_usdp_hyperevm_i.Prelude.Int.◌+ℤ◌
    parallel_usdp_hyperevm_i.Prelude.Int.◌-ℤ◌
overdraws = refl

held-replay_holder_transfers_example :
    (held usdp replayed.balances + 15 ≡ 100) × (held susdp replayed.balances + 0 ≡ 0)
held-replay_holder_transfers_example =
    held-replay_holder_transfers transfers fallback replayed replays
