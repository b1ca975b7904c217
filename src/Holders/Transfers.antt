-- ===== src/Holders/Transfers.antt =====
-- One transfer conserves what was minted.
use parallel_usdp_hyperevm_i.Prelude.{
  ℕ, ◌+◌, ◌≡◌, refl, subst, arith, Bool, true, false, List, Option, none, some, if◌then◌else◌, ok,
  >>=-eq-ok, ok-injective, inl, inr, Bool-cases,
}
use parallel_usdp_hyperevm_i.Prelude.Int.{pos, pos_part, neg_part, ◌-ℤ◌}
use parallel_usdp_hyperevm_i.Prelude.Text.{Text}
use parallel_usdp_hyperevm_i.Holders.Replay.{
  AssetMetric, Metrics, get_metric, set_metric, metric_or_new, widen, counted_metric, metric_or_new,
  counted_metric, widen, Metrics, get_metric, AssetMetric, Replay, transfer,
}
use parallel_usdp_hyperevm_i.Holders.{
  ParallelAssetId, usdp, susdp, ReplayedHolderBalance, is_zero_address, Holders, update,
}
use parallel_usdp_hyperevm_i.Holders.Conserved.{held, counted, held-update}

abbrev pub minted_of : Option AssetMetric → ℕ
minted_of none = 0
minted_of (some metric) = metric.minted_volume

abbrev pub burned_of : Option AssetMetric → ℕ
burned_of none = 0
burned_of (some metric) = metric.burned_volume

-- What is held of an asset and what was burned of it is what was minted.
abbrev pub Conserves : ParallelAssetId → Replay → Type 0
Conserves asset replay =
    held asset replay.states + burned_of (get_metric asset replay.metrics)
    ≡ minted_of (get_metric asset replay.metrics)

-- The metric that a transfer begins with.
abbrev opened : ParallelAssetId → ℕ → Metrics → AssetMetric
opened asset timestamp metrics =
    widen timestamp (metric_or_new timestamp (get_metric asset metrics))

opened_volumes :
    (timestamp : ℕ) (metric : Option AssetMetric)
    → ((widen timestamp (metric_or_new timestamp metric)).minted_volume ≡ minted_of metric)
      × ((widen timestamp (metric_or_new timestamp metric)).burned_volume ≡ burned_of metric)
opened_volumes timestamp none = (refl, refl)
opened_volumes timestamp (some metric) = (refl, refl)

minted-counted_metric :
    (from to : Text) (value new_holders : ℕ) (metric : AssetMetric)
    → (counted_metric from to value new_holders metric).minted_volume
      ≡ metric.minted_volume + (if is_zero_address from then value else 0)
minted-counted_metric from to value new_holders metric = elim (Bool-cases (is_zero_address from)) [
  | inl a ↦ elim (Bool-cases (is_zero_address to)) [
    | inl b ↦ rw (a, b) refl
    | inr b ↦ rw (a, b) refl
  ]
  | inr a ↦ elim (Bool-cases (is_zero_address to)) [
    | inl b ↦ rw (a, b) (omega arith)
    | inr b ↦ rw (a, b) (omega arith)
  ]
]

burned-counted_metric :
    (from to : Text) (value new_holders : ℕ) (metric : AssetMetric)
    → (counted_metric from to value new_holders metric).burned_volume
      ≡ metric.burned_volume + (if is_zero_address to then value else 0)
burned-counted_metric from to value new_holders metric = elim (Bool-cases (is_zero_address from)) [
  | inl a ↦ elim (Bool-cases (is_zero_address to)) [
    | inl b ↦ rw (a, b) refl
    | inr b ↦ rw (a, b) (omega arith)
  ]
  | inr a ↦ elim (Bool-cases (is_zero_address to)) [
    | inl b ↦ rw (a, b) refl
    | inr b ↦ rw (a, b) (omega arith)
  ]
]

shifted_lem :
    (minting burning : Bool) (after before burned minted value : ℕ)
    → after + (if minting then 0 else value) ≡ before + (if burning then 0 else value)
    → before + burned ≡ minted
    → after + (burned + (if burning then value else 0)) ≡ minted + (if minting then value else 0)
shifted_lem true true after before burned minted value h k = omega (arith, h, k)
shifted_lem true false after before burned minted value h k = omega (arith, h, k)
shifted_lem false true after before burned minted value h k = omega (arith, h, k)
shifted_lem false false after before burned minted value h k = omega (arith, h, k)

same_asset_lem :
    (after before timestamp new_holders : ℕ) (from to : Text) (value : ℕ) (old : Option AssetMetric)
    → after + (if is_zero_address from then 0 else value)
      ≡ before + (if is_zero_address to then 0 else value)
    → before + burned_of old ≡ minted_of old
    → (let metric =
          counted_metric from to value new_holders
            (widen timestamp (metric_or_new timestamp old)) in
        after + metric.burned_volume ≡ metric.minted_volume)
same_asset_lem after before timestamp new_holders from to value old moved c =
    let metric = widen timestamp (metric_or_new timestamp old) in
    let (minted, burned) = opened_volumes timestamp old in
    rw
      (
        minted-counted_metric from to value new_holders metric,
        burned-counted_metric from to value new_holders metric,
        minted,
        burned,
      )
      (shifted_lem (is_zero_address from) (is_zero_address to) after before _ _ value moved c)

negated_parts : (n : ℕ) → (pos_part (pos 0 -ℤ pos n) ≡ 0) × (neg_part (pos 0 -ℤ pos n) ≡ n)
unfolding ◌-ℤ◌
negated_parts n = (ground arith, ground arith)

Conserves-recorded :
    (asset of_asset : ParallelAssetId) (timestamp new_holders : ℕ) (from to : Text) (value : ℕ)
    (replay : Replay) (states : List ReplayedHolderBalance)
    → held asset states + counted asset of_asset from value
      ≡ held asset replay.states + counted asset of_asset to value
    → Conserves asset replay
    → Conserves asset (record {
      states = states;
      metrics =
          set_metric of_asset
            (counted_metric from to value new_holders (opened of_asset timestamp replay.metrics))
            replay.metrics;
    })
Conserves-recorded usdp usdp timestamp new_holders from to value replay states moved c =
    same_asset_lem _ _ timestamp new_holders from to value replay.metrics.of_usdp moved c
Conserves-recorded susdp susdp timestamp new_holders from to value replay states moved c =
    same_asset_lem _ _ timestamp new_holders from to value replay.metrics.of_susdp moved c
Conserves-recorded usdp susdp timestamp new_holders from to value replay states moved c =
    ground arith
Conserves-recorded susdp usdp timestamp new_holders from to value replay states moved c =
    ground arith

moved_counted :
    (asset of_asset : ParallelAssetId) (from to : Text) (value before between after taken given : ℕ)
    → taken ≡ 0
    → given ≡ value
    → between + counted asset of_asset from given ≡ before + counted asset of_asset from taken
    → after + counted asset of_asset to 0 ≡ between + counted asset of_asset to value
    → after + counted asset of_asset from value ≡ before + counted asset of_asset to value
moved_counted asset of_asset from to value before between after taken given none_taken all_given out
      gain =
    ground arith

pub Conserves-transfer :
    (asset of_asset : ParallelAssetId) (block timestamp : ℕ) (from to : Text) (value : ℕ)
    (replay after : Replay)
    → transfer of_asset block timestamp from to value replay ≡ ok after
    → Conserves asset replay
    → Conserves asset after
unfolding transfer
Conserves-transfer asset of_asset block timestamp from to value replay after h c =
    let metric = opened of_asset timestamp replay.metrics in
    let begun : Holders = record { states = replay.states; new_holders = metric.new_holders } in
    let (taken, took, h1) = >>=-eq-ok (update of_asset block from (pos 0 -ℤ pos value) begun) _ h in
    let (given, gave, h2) = >>=-eq-ok (update of_asset block to (pos value) taken) _ h1 in
    let (nothing, all_of_it) = negated_parts value in
    let out = held-update asset of_asset block from (pos 0 -ℤ pos value) begun taken took in
    let in' = held-update asset of_asset block to (pos value) taken given gave in
    subst (Conserves asset) (ok-injective h2) (
      Conserves-recorded asset of_asset timestamp given.new_holders from to value replay
        given.states
        (moved_counted asset of_asset from to value _ _ _ _ _ nothing all_of_it out in') c)
