-- ===== src/Holders/Minted.antt =====
-- Replaying transfers conserves what was minted.
use parallel_usdp_hyperevm_i.Prelude.{
  ◌>>=◌, Result, ℕ, ◌+◌, ◌≡◌, refl, subst, List, [], ◌∷◌, Option, none, some, if◌then◌else◌, ok,
  err, >>=-eq-ok, ok-injective, sum_of-sort_by, sort_by,
}
use parallel_usdp_hyperevm_i.Prelude.Int.{ℤ, pos, negsuc}
use parallel_usdp_hyperevm_i.Holders.Replay.{
  ReplayResult, FallbackWindow, activity_of, active_holders_of, balance_before, event_before,
  nothing_replayed, replay_result, replay_holder_transfers, AssetMetric, replay_event,
  replay_events, AssetMetric, Replay, transfer,
}
use parallel_usdp_hyperevm_i.Holders.{
  negative_value, ParallelAssetId, usdp, susdp, same_asset, TransferReplayEvent,
  ReplayedHolderBalance, ReplayError, normalized_address,
}
use parallel_usdp_hyperevm_i.Holders.Conserved.{held}
use parallel_usdp_hyperevm_i.Holders.Transfers.{minted_of, burned_of, Conserves, Conserves-transfer}

Conserves-replay_event :
    (asset : ParallelAssetId) (event : TransferReplayEvent) (replay after : Replay)
    → replay_event event replay ≡ ok after
    → Conserves asset replay
    → Conserves asset after
unfolding replay_event
Conserves-replay_event asset event replay after h c = value_lem event.value h
  where
    value_lem :
        (value : ℤ)
        → (elim value as (λ v. Result ReplayError Replay) [
          | negsuc _ ↦ err negative_value
          | pos amount ↦ normalized_address event.from >>= λ from.
              normalized_address event.to >>= λ to.
              transfer event.asset_id event.block_number event.block_timestamp from to amount replay
        ])
          ≡ ok after
        → Conserves asset after
    value_lem (negsuc n) h = cc
    value_lem (pos amount) h =
        let (from, normal_from, h1) = >>=-eq-ok (normalized_address event.from) _ h in
        let (to, normal_to, h2) = >>=-eq-ok (normalized_address event.to) _ h1 in
        Conserves-transfer asset event.asset_id event.block_number event.block_timestamp from to
          amount replay after h2 c

Conserves-replay_events :
    (asset : ParallelAssetId) (events : List TransferReplayEvent) (replay after : Replay)
    → replay_events events replay ≡ ok after
    → Conserves asset replay
    → Conserves asset after
unfolding replay_events replay_event
Conserves-replay_events asset [] replay after h c = subst (Conserves asset) (ok-injective h) c
Conserves-replay_events asset (event ∷ rest) replay after h c =
    let (next, replayed, later) = >>=-eq-ok (replay_event event replay) (replay_events rest) h in
    Conserves-replay_events asset rest next after later
      (Conserves-replay_event asset event replay next replayed c)

activity_volumes :
    (asset : ParallelAssetId) (metric : Option AssetMetric) (fallback : FallbackWindow) (active : ℕ)
    → ((activity_of asset metric fallback active).minted_volume ≡ minted_of metric)
      × ((activity_of asset metric fallback active).burned_volume ≡ burned_of metric)
activity_volumes asset none fallback active = (refl, refl)
activity_volumes asset (some metric) fallback active = (refl, refl)

held-sort_by :
    (asset : ParallelAssetId) (states : List ReplayedHolderBalance)
    → held asset (sort_by balance_before states) ≡ held asset states
held-sort_by asset states =
    sum_of-sort_by balance_before
      (λ (state : ReplayedHolderBalance).
        if same_asset state.asset_id asset then state.balance else 0)
      states

-- What a result says of each asset.
abbrev Balanced : ReplayResult → Type 0
Balanced result =
    (held usdp result.balances + result.usdp_activity.burned_volume
      ≡ result.usdp_activity.minted_volume)
    × (held susdp result.balances + result.susdp_activity.burned_volume
        ≡ result.susdp_activity.minted_volume)

Balanced-replay_result :
    (fallback : FallbackWindow) (replay : Replay)
    → Conserves usdp replay
    → Conserves susdp replay
    → Balanced (replay_result fallback replay)
Balanced-replay_result fallback replay c d =
    let balances = sort_by balance_before replay.states in
    let (minted, burned) =
      activity_volumes usdp replay.metrics.of_usdp fallback (active_holders_of usdp balances) in
    let (minted', burned') =
      activity_volumes susdp replay.metrics.of_susdp fallback (active_holders_of susdp balances) in
    (
      rw (minted, burned, held-sort_by usdp replay.states) c,
      rw (minted', burned', held-sort_by susdp replay.states) d,
    )

-- For each asset, whatever the order in which transfers are given, a replay that does not throw
-- leaves balances whose sum and the burned volume are the minted volume.
pub held-replay_holder_transfers :
    (events : List TransferReplayEvent) (fallback : FallbackWindow) (result : ReplayResult)
    → replay_holder_transfers events fallback ≡ ok result
    → (held usdp result.balances + result.usdp_activity.burned_volume
        ≡ result.usdp_activity.minted_volume)
      × (held susdp result.balances + result.susdp_activity.burned_volume
          ≡ result.susdp_activity.minted_volume)
unfolding replay_holder_transfers
held-replay_holder_transfers events fallback result h =
    let (replay, replayed, e) =
      >>=-eq-ok (replay_events (sort_by event_before events) nothing_replayed) _ h in
    subst Balanced (ok-injective e) (
      Balanced-replay_result fallback replay
        (Conserves-replay_events usdp (sort_by event_before events) nothing_replayed replay replayed
          refl)
        (Conserves-replay_events susdp (sort_by event_before events) nothing_replayed replay
          replayed refl))
