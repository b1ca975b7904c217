-- ===== src/Savings/Segments/Steps.antt =====
-- What each event of a segmented window changes.
use parallel_usdp_hyperevm_i.Prelude.{
  sum_of, ℕ, ◌+◌, ◌-◌, ◌≤◌, ◌≡◌, refl, arith, List, [], ◌∷◌, ok, ltb, inl, inr, Bool-cases,
  >>=-eq-ok, ok-injective, subst,
}
use parallel_usdp_hyperevm_i.Prelude.Int.{ℤ, pos_part, neg_part, sub_ℕ, ◌+ℤ◌, ◌≤ℤ◌, +ℤ_parts}
use parallel_usdp_hyperevm_i.Savings.Growth.{compute_updated_assets-le}
use parallel_usdp_hyperevm_i.Savings.Segments.{
  SegmentAction, accrued, deposit, withdraw, rate_updated, SavingsRateSegmentEvent, SegmentState,
  is_outside, act, integrate_events,
}

abbrev pub interest_of : SegmentAction → ℕ
interest_of (accrued interest) = interest
interest_of (deposit assets) = 0
interest_of (withdraw assets) = 0
interest_of (rate_updated rate) = 0

abbrev pub deposit_of : SegmentAction → ℕ
deposit_of (accrued interest) = 0
deposit_of (deposit assets) = assets
deposit_of (withdraw assets) = 0
deposit_of (rate_updated rate) = 0

abbrev pub withdrawal_of : SegmentAction → ℕ
withdrawal_of (accrued interest) = 0
withdrawal_of (deposit assets) = 0
withdrawal_of (withdraw assets) = assets
withdrawal_of (rate_updated rate) = 0

abbrev pub total : (SegmentAction → ℕ) → List SavingsRateSegmentEvent → ℕ
total amount = sum_of (λ event. amount event.action)

-- How the state after some steps follows from the one before, given what the steps brought.
pub record Accounts (interest deposited withdrawn : ℕ) (s s' : SegmentState) : Type 0 where
  pub assets : s'.actual_assets + withdrawn ≡ s.actual_assets + deposited + interest
  pub emitted : s'.emitted_accrued_interest ≡ s.emitted_accrued_interest + interest
  pub ypo :
      pos_part s'.integrated_ypo
        + neg_part s.integrated_ypo
        + neg_part s'.predicted_accrued_interest
        + pos_part s.predicted_accrued_interest
      ≡ neg_part s'.integrated_ypo
        + pos_part s.integrated_ypo
        + pos_part s'.predicted_accrued_interest
        + neg_part s.predicted_accrued_interest
  pub grows : s.predicted_accrued_interest ≤ℤ s'.predicted_accrued_interest

both_move :
    (ypo predicted change : ℤ)
    → pos_part (ypo +ℤ change) + neg_part ypo + neg_part (predicted +ℤ change) + pos_part predicted
      ≡ neg_part (ypo +ℤ change)
        + pos_part ypo
        + pos_part (predicted +ℤ change)
        + neg_part predicted
both_move ypo predicted change = omega (arith, +ℤ_parts ypo change, +ℤ_parts predicted change)

pub sub_ℕ_parts : (a b : ℕ) → pos_part (sub_ℕ a b) + b ≡ neg_part (sub_ℕ a b) + a
sub_ℕ_parts a b = ground arith

sub_grows : (z : ℤ) {a b : ℕ} → a ≤ b → z ≤ℤ z +ℤ sub_ℕ b a
sub_grows z {a} {b} h = omega (arith, +ℤ_parts z (sub_ℕ b a), sub_ℕ_parts b a)

Accounts-act :
    (s s' : SegmentState) (timestamp : ℕ) (action : SegmentAction)
    → act s timestamp action ≡ ok s'
    → Accounts (interest_of action) (deposit_of action) (withdrawal_of action) s s'
unfolding act
Accounts-act s s' timestamp (accrued interest) h =
    subst (Accounts interest 0 0 s) (ok-injective h) (record {
      assets = omega arith;
      emitted = refl;
      ypo = both_move s.integrated_ypo s.predicted_accrued_interest _;
      grows =
          sub_grows s.predicted_accrued_interest
            (compute_updated_assets-le s.actual_assets s.rate (timestamp - s.last_update)
              (timestamp - s.last_update) (omega arith)).0;
    })
Accounts-act s s' timestamp (deposit assets) h =
    subst (Accounts 0 assets 0 s) (ok-injective h) (record {
      assets = omega arith;
      emitted = omega arith;
      ypo = omega arith;
      grows = omega arith;
    })
Accounts-act s s' timestamp (withdraw assets) h = elim (Bool-cases (ltb s.actual_assets assets)) [
  | inl short ↦ cc (rw short at h)
  | inr enough ↦ subst (Accounts 0 0 assets s) (ok-injective (rw enough at h)) (record {
    assets = ground arith;
    emitted = omega arith;
    ypo = omega arith;
    grows = omega arith;
  })
]
Accounts-act s s' timestamp (rate_updated rate) h =
    subst (Accounts 0 0 0 s) (ok-injective h) (record {
      assets = omega arith;
      emitted = omega arith;
      ypo = omega arith;
      grows = omega arith;
    })

pub Accounts-integrate_events :
    (start end : ℕ) (events : List SavingsRateSegmentEvent) (s s' : SegmentState)
    → integrate_events start end events s ≡ ok s'
    → Accounts
        (total interest_of events)
        (total deposit_of events)
        (total withdrawal_of events)
        s
        s'
unfolding integrate_events
Accounts-integrate_events start end [] s s' h =
    subst (Accounts 0 0 0 s) (ok-injective h) (record {
      assets = omega arith;
      emitted = omega arith;
      ypo = omega arith;
      grows = omega arith;
    })
Accounts-integrate_events start end (event ∷ rest) s s' h =
    elim (Bool-cases (is_outside start end s event)) [
      | inl outside ↦ cc (rw outside at h)
      | inr inside ↦
          let (next, acted, later) = >>=-eq-ok _ _ (rw inside at h) in
          let a = Accounts-act s next event.timestamp event.action acted in
          let b = Accounts-integrate_events start end rest next s' later in
          record {
            assets = omega (arith, a.assets, b.assets);
            emitted = omega (arith, a.emitted, b.emitted);
            ypo = omega (arith, a.ypo, b.ypo);
            grows = omega (arith, a.grows, b.grows);
          }
    ]
