-- ===== src/Savings/Segments/Balance.antt =====
-- What `integrateSegmentedRateWindow` accounts for: every deposit, withdrawal and accrual once.
use parallel_usdp_hyperevm_i.Prelude.{
  ◌||◌, sum_of-sort_by, ℕ, ◌+◌, ◌-◌, ◌≤◌, ◌≡◌, arith, List, ok, ltb, inl, inr, Bool-cases, sort_by,
  >>=-eq-ok, ok-injective, subst,
}
use parallel_usdp_hyperevm_i.Prelude.Int.{
  ℤ, pos, pos_part, neg_part, sub_ℕ, ◌+ℤ◌, ◌≤ℤ◌, ◌-ℤ◌, -ℤ_parts, eq_of_parts, +ℤ_parts,
}
use parallel_usdp_hyperevm_i.Savings.Growth.{compute_updated_assets-le}
use parallel_usdp_hyperevm_i.Savings.Segments.{
  SegmentAction, SavingsRateSegmentEvent, SegmentWindow, SegmentState, SegmentResult,
  happens_before, begin_segments, close_segments, integrate_segmented_rate_window,
}
use parallel_usdp_hyperevm_i.Savings.Segments.Steps.{
  interest_of, deposit_of, withdrawal_of, total, Accounts, sub_ℕ_parts, Accounts-integrate_events,
}

-- What an integrated window has accounted for.
pub record IsAccounted (window : SegmentWindow) (events : List SavingsRateSegmentEvent)
    (result : SegmentResult) : Type 0 where
  pub assets :
      result.actual_assets_at_end + total withdrawal_of events
      ≡ window.actual_assets_at_start + total deposit_of events + total interest_of events
  pub interest : result.emitted_accrued_interest ≡ total interest_of events
  pub ypo :
      result.integrated_ypo
      ≡ (result.predicted_accrued_interest +ℤ result.predicted_pending_yield_at_end)
        -ℤ sub_ℕ window.total_assets_at_start window.actual_assets_at_start
  pub accrued_grows : pos 0 ≤ℤ result.predicted_accrued_interest
  pub pending_grows : pos 0 ≤ℤ result.predicted_pending_yield_at_end

closed_ypo :
    (owed ypo predicted pending : ℤ)
    → pos_part ypo + neg_part (pos 0 -ℤ owed) + neg_part predicted + 0
      ≡ neg_part ypo + pos_part (pos 0 -ℤ owed) + pos_part predicted + 0
    → ypo +ℤ pending ≡ (predicted +ℤ pending) -ℤ owed
closed_ypo owed ypo predicted pending h = eq_of_parts _ _ (
    omega (
      arith,
      +ℤ_parts ypo pending,
      +ℤ_parts predicted pending,
      -ℤ_parts (predicted +ℤ pending) owed,
      -ℤ_parts (pos 0) owed,
    ))

sorted_total :
    (amount : SegmentAction → ℕ) (events : List SavingsRateSegmentEvent)
    → total amount (sort_by happens_before events) ≡ total amount events
sorted_total amount events = sum_of-sort_by happens_before (λ event. amount event.action) events

pending_lem : (a b : ℕ) → a ≤ b → pos 0 ≤ℤ sub_ℕ b a
pending_lem a b h = omega (arith, sub_ℕ_parts b a)

IsAccounted-close_segments :
    (window : SegmentWindow) (end : ℕ) (events : List SavingsRateSegmentEvent) (s : SegmentState)
    → Accounts
        (total interest_of events)
        (total deposit_of events)
        (total withdrawal_of events)
        (begin_segments window)
        s
    → IsAccounted window events (close_segments end s)
unfolding close_segments
IsAccounted-close_segments window end events s a = record {
  assets = omega (arith, a.assets);
  interest = omega (arith, a.emitted);
  ypo = closed_ypo _ s.integrated_ypo s.predicted_accrued_interest _ a.ypo;
  accrued_grows = a.grows;
  pending_grows =
      pending_lem _ _
        (compute_updated_assets-le s.actual_assets s.rate (end - s.last_update)
          (end - s.last_update) (omega arith)).0;
}

Accounts-of_sorted :
    (window : SegmentWindow) (events : List SavingsRateSegmentEvent) (s : SegmentState)
    → (let sorted = sort_by happens_before events in
        Accounts
          (total interest_of sorted)
          (total deposit_of sorted)
          (total withdrawal_of sorted)
          (begin_segments window)
          s)
    → Accounts
        (total interest_of events)
        (total deposit_of events)
        (total withdrawal_of events)
        (begin_segments window)
        s
Accounts-of_sorted window events s a = record {
  assets = omega (
    arith,
    a.assets,
    sorted_total interest_of events,
    sorted_total deposit_of events,
    sorted_total withdrawal_of events,
  );
  emitted = omega (arith, a.emitted, sorted_total interest_of events);
  ypo = a.ypo;
  grows = a.grows;
}

-- An integrated window accounts for every deposit, withdrawal and accrual once, whatever the order
-- in which the events are given: the assets at its end and the withdrawals are the assets at its
-- start, the deposits and the accruals; its yield is what was predicted to accrue and to be
-- pending, less what was pending at its start; and neither prediction is negative.
pub integrate_segmented_rate_window-IsAccounted :
    (window : SegmentWindow) (events : List SavingsRateSegmentEvent) (result : SegmentResult)
    → integrate_segmented_rate_window window events ≡ ok result
    → IsAccounted window events result
unfolding integrate_segmented_rate_window
integrate_segmented_rate_window-IsAccounted window events result h =
    elim (Bool-cases (
      ltb window.block_timestamp_at_end window.block_timestamp_at_start
      || ltb window.block_timestamp_at_start window.last_update_at_start)) [
        | inl bad ↦ cc (rw bad at h)
        | inr good ↦
            let (s, integrated, closed) = >>=-eq-ok _ _ (rw good at h) in
            subst (IsAccounted window events) (ok-injective closed) (
              IsAccounted-close_segments window window.block_timestamp_at_end events s (
                Accounts-of_sorted window events s (
                  Accounts-integrate_events window.block_timestamp_at_start
                    window.block_timestamp_at_end (sort_by happens_before events)
                    (begin_segments window) s integrated)))
      ]
