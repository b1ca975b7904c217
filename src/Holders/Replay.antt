-- ===== src/Holders/Replay.antt =====
-- src/analytics/holders.ts: the metrics and the loop of `replayHolderTransfers`, and what it
-- returns.
use parallel_usdp_hyperevm_i.Prelude.{
  ℕ, ◌+◌, Bool, true, false, not, ◌&&◌, ◌||◌, ◌==◌, ltb, List, [], ◌∷◌, ◌++◌, Option, none, some,
  if◌then◌else◌, Result, ok, err, ◌>>=◌, any, length, sort_by, filter,
}
use parallel_usdp_hyperevm_i.Prelude.Int.{pos, negsuc, ◌-ℤ◌}
use parallel_usdp_hyperevm_i.Prelude.Text.{Text, text_eq}
use parallel_usdp_hyperevm_i.Holders.{
  ParallelAssetId, usdp, susdp, same_asset, TransferReplayEvent, ReplayedHolderBalance, ReplayError,
  negative_value, normalized_address, is_zero_address, update,
}

pub record AssetMetric : Type 0 where
  pub transfer_volume : ℕ
  pub minted_volume : ℕ
  pub burned_volume : ℕ
  pub transfer_count : ℕ
  pub senders : List Text
  pub receivers : List Text
  pub participants : List Text
  pub new_holders : ℕ
  pub window_start : ℕ
  pub window_end : ℕ

-- The source's map from assets, which has two keys.
pub record Metrics : Type 0 where
  pub of_usdp : Option AssetMetric
  pub of_susdp : Option AssetMetric

abbrev pub get_metric : ParallelAssetId → Metrics → Option AssetMetric
get_metric usdp metrics = metrics.of_usdp
get_metric susdp metrics = metrics.of_susdp

abbrev pub set_metric : ParallelAssetId → AssetMetric → Metrics → Metrics
set_metric usdp metric metrics = record metrics { of_usdp = some metric }
set_metric susdp metric metrics = record metrics { of_susdp = some metric }

abbrev pub metric_or_new : ℕ → Option AssetMetric → AssetMetric
metric_or_new timestamp none = record {
  transfer_volume = 0;
  minted_volume = 0;
  burned_volume = 0;
  transfer_count = 0;
  senders = [];
  receivers = [];
  participants = [];
  new_holders = 0;
  window_start = timestamp;
  window_end = timestamp;
}
metric_or_new timestamp (some metric) = metric

abbrev pub widen : ℕ → AssetMetric → AssetMetric
widen timestamp metric = record metric {
  window_start = if ltb timestamp metric.window_start then timestamp else metric.window_start;
  window_end = if ltb metric.window_end timestamp then timestamp else metric.window_end;
}

-- `Set.add`
unfoldable pub add_address : Text → List Text → List Text
unfolding text_eq
add_address address set = if any (text_eq address) set then set else set ++ address ∷ []

abbrev pub count_sender : Text → ℕ → AssetMetric → AssetMetric
count_sender from value metric =
    if is_zero_address from
    then record metric { minted_volume = metric.minted_volume + value }
    else record metric {
      senders = add_address from metric.senders;
      participants = add_address from metric.participants;
    }

abbrev pub count_receiver : Text → ℕ → AssetMetric → AssetMetric
count_receiver to value metric =
    if is_zero_address to
    then record metric { burned_volume = metric.burned_volume + value }
    else record metric {
      receivers = add_address to metric.receivers;
      participants = add_address to metric.participants;
    }

abbrev pub count_transfer : Text → Text → ℕ → AssetMetric → AssetMetric
count_transfer from to value metric =
    if not (is_zero_address from) && not (is_zero_address to)
    then record metric {
      transfer_volume = metric.transfer_volume + value;
      transfer_count = metric.transfer_count + 1;
    }
    else metric

pub record Replay : Type 0 where
  pub states : List ReplayedHolderBalance
  pub metrics : Metrics

abbrev pub counted_metric : Text → Text → ℕ → ℕ → AssetMetric → AssetMetric
counted_metric from to value new_holders metric = count_transfer from to value (
    count_receiver to value (count_sender from value (record metric { new_holders = new_holders })))

unfoldable pub transfer :
    ParallelAssetId → ℕ → ℕ → Text → Text → ℕ → Replay → Result ReplayError Replay
unfolding update add_address
transfer asset block timestamp from to value replay =
    let metric = widen timestamp (metric_or_new timestamp (get_metric asset replay.metrics)) in
    update asset block from (pos 0 -ℤ pos value)
      (record { states = replay.states; new_holders = metric.new_holders })
    >>= λ taken. update asset block to (pos value) taken >>= λ given. ok (record {
      states = given.states;
      metrics =
          set_metric asset (counted_metric from to value given.new_holders metric) replay.metrics;
    })

unfoldable pub replay_event : TransferReplayEvent → Replay → Result ReplayError Replay
unfolding normalized_address transfer
replay_event event replay = elim event.value [
  | negsuc _ ↦ err negative_value
  | pos value ↦ normalized_address event.from >>= λ from. normalized_address event.to >>= λ to.
      transfer event.asset_id event.block_number event.block_timestamp from to value replay
]

unfoldable pub replay_events : List TransferReplayEvent → Replay → Result ReplayError Replay
unfolding replay_event
replay_events [] replay = ok replay
replay_events (event ∷ rest) replay = replay_event event replay >>= replay_events rest

abbrev pub event_before : TransferReplayEvent → TransferReplayEvent → Bool
event_before left right =
    ltb left.block_number right.block_number
    || (left.block_number == right.block_number && ltb left.log_index right.log_index)

-- `localeCompare` on the two asset names and on lower-case hexadecimal addresses.
unfoldable pub text_before : Text → Text → Bool
text_before [] [] = false
text_before [] (_ ∷ _) = true
text_before (_ ∷ _) [] = false
text_before (a ∷ left) (b ∷ right) =
    let rest = text_before left right in ltb a b || (a == b && rest)

abbrev pub asset_before : ParallelAssetId → ParallelAssetId → Bool
asset_before susdp usdp = true
asset_before susdp susdp = false
asset_before usdp _ = false

abbrev pub balance_before : ReplayedHolderBalance → ReplayedHolderBalance → Bool
balance_before left right =
    asset_before left.asset_id right.asset_id
    || (same_asset left.asset_id right.asset_id
        && text_before left.holder_address right.holder_address)

pub record ReplayedAssetActivity : Type 0 where
  pub asset_id : ParallelAssetId
  pub window_start : ℕ
  pub window_end : ℕ
  pub transfer_volume : ℕ
  pub minted_volume : ℕ
  pub burned_volume : ℕ
  pub transfer_count : ℕ
  pub unique_senders : ℕ
  pub unique_receivers : ℕ
  pub unique_participants : ℕ
  pub new_holders : ℕ
  pub active_holders : ℕ

pub record FallbackWindow : Type 0 where
  pub start : ℕ
  pub end : ℕ

abbrev pub active_holders_of : ParallelAssetId → List ReplayedHolderBalance → ℕ
active_holders_of asset balances =
    length
      (filter (λ row. ltb 0 row.balance) (filter (λ row. same_asset row.asset_id asset) balances))

abbrev pub activity_of :
    ParallelAssetId → Option AssetMetric → FallbackWindow → ℕ → ReplayedAssetActivity
activity_of asset none fallback active = record {
  asset_id = asset;
  window_start = fallback.start;
  window_end = fallback.end;
  transfer_volume = 0;
  minted_volume = 0;
  burned_volume = 0;
  transfer_count = 0;
  unique_senders = 0;
  unique_receivers = 0;
  unique_participants = 0;
  new_holders = 0;
  active_holders = active;
}
activity_of asset (some metric) fallback active = record {
  asset_id = asset;
  window_start = metric.window_start;
  window_end = metric.window_end;
  transfer_volume = metric.transfer_volume;
  minted_volume = metric.minted_volume;
  burned_volume = metric.burned_volume;
  transfer_count = metric.transfer_count;
  unique_senders = length metric.senders;
  unique_receivers = length metric.receivers;
  unique_participants = length metric.participants;
  new_holders = metric.new_holders;
  active_holders = active;
}

pub record ReplayResult : Type 0 where
  pub balances : List ReplayedHolderBalance
  pub usdp_activity : ReplayedAssetActivity
  pub susdp_activity : ReplayedAssetActivity

abbrev pub nothing_replayed : Replay
nothing_replayed = record { states = []; metrics = record { of_usdp = none; of_susdp = none } }

abbrev pub replay_result : FallbackWindow → Replay → ReplayResult
replay_result fallback replay =
    let balances = sort_by balance_before replay.states in
    record {
      balances = balances;
      usdp_activity =
          activity_of usdp replay.metrics.of_usdp fallback (active_holders_of usdp balances);
      susdp_activity =
          activity_of susdp replay.metrics.of_susdp fallback (active_holders_of susdp balances);
    }

unfoldable pub replay_holder_transfers :
    List TransferReplayEvent → FallbackWindow → Result ReplayError ReplayResult
unfolding replay_events text_before
replay_holder_transfers events fallback =
    replay_events (sort_by event_before events) nothing_replayed >>= λ replay.
    ok (replay_result fallback replay)
