-- ===== src/Holders/Conserved.antt =====
-- How `update` moves the sum of balances of an asset.
use parallel_usdp_hyperevm_i.Prelude.{
  ℕ, ◌+◌, ◌≡◌, refl, sym, ◌∙◌, ap, subst, arith, Bool, true, false, List, [], ◌∷◌, Option, none,
  some, if◌then◌else◌, ok, ok-injective, inl, inr, Bool-cases, Option-cases, sum_of, and_parts,
  eq_of_some_eq,
}
use parallel_usdp_hyperevm_i.Prelude.Int.{ℤ, pos, negsuc, pos_part, neg_part, ◌+ℤ◌, +ℤ_parts}
use parallel_usdp_hyperevm_i.Prelude.Text.{Text, eq_of_text_eq}
use parallel_usdp_hyperevm_i.Holders.{
  ParallelAssetId, usdp, susdp, same_asset, ReplayedHolderBalance, same_holder, find_state,
  set_state, state_or_new, changed_state, change_balance, is_zero_address, Holders, update,
}

-- The sum of an asset's balances.
abbrev pub held : ParallelAssetId → List ReplayedHolderBalance → ℕ
held asset states =
    sum_of (λ state. if same_asset state.asset_id asset then state.balance else 0) states

abbrev balance_of : Option ReplayedHolderBalance → ℕ
balance_of none = 0
balance_of (some state) = state.balance

asset_eq : (a b : ParallelAssetId) → same_asset a b ≡ true → a ≡ b
asset_eq usdp usdp h = refl
asset_eq usdp susdp h = cc
asset_eq susdp usdp h = cc
asset_eq susdp susdp h = refl

-- An amount that concerns the asset.
abbrev if_asset : ParallelAssetId → ParallelAssetId → ℕ → ℕ
if_asset asset counted amount = if same_asset asset counted then amount else 0

held-set_state :
    (asset : ParallelAssetId) (state : ReplayedHolderBalance) (states : List ReplayedHolderBalance)
    → held asset (set_state state states)
        + if_asset state.asset_id asset
            (balance_of (find_state state.asset_id state.holder_address states))
      ≡ held asset states + if_asset state.asset_id asset state.balance
unfolding set_state find_state
held-set_state asset state [] = ground arith
held-set_state asset state (other ∷ rest) =
    elim (Bool-cases (same_holder state.asset_id state.holder_address other)) [
      | inl same ↦
          let same_id = asset_eq other.asset_id state.asset_id (and_parts _ _ same).0 in
          rw (same, same_id) (omega arith)
      | inr another ↦
          let later = held-set_state asset state rest in rw another (omega (arith, later))
    ]

find_state-key :
    (asset : ParallelAssetId) (address : Text) (states : List ReplayedHolderBalance)
    (state : ReplayedHolderBalance)
    → find_state asset address states ≡ some state
    → (state.asset_id ≡ asset) × (state.holder_address ≡ address)
unfolding find_state
find_state-key asset address [] state h = cc
find_state-key asset address (other ∷ rest) state h =
    elim (Bool-cases (same_holder asset address other)) [
      | inl same ↦
          let e : other ≡ state = eq_of_some_eq (rw same at h) in
          (
            ap (λ (s : ReplayedHolderBalance). s.asset_id) (sym e)
                ∙ asset_eq other.asset_id asset (and_parts _ _ same).0,
            ap (λ (s : ReplayedHolderBalance). s.holder_address) (sym e)
                ∙ eq_of_text_eq other.holder_address address
                    (and_parts (same_asset other.asset_id asset) _ same).1,
          )
      | inr another ↦ find_state-key asset address rest state (rw another at h)
    ]

-- An amount that a change of the address's balance moves.
abbrev pub counted : ParallelAssetId → ParallelAssetId → Text → ℕ → ℕ
counted asset of_asset address amount =
    if is_zero_address address then 0 else if_asset of_asset asset amount

moved_lem :
    (c : Bool) (after before old next taken given : ℕ)
    → after + (if c then old else 0) ≡ before + (if c then next else 0)
    → next + taken ≡ 0 + old + given
    → after + (if c then taken else 0) ≡ before + (if c then given else 0)
moved_lem true after before old next taken given h k = omega (arith, h, k)
moved_lem false after before old next taken given h k = omega (arith, h, k)

held-change_balance :
    (asset of_asset : ParallelAssetId) (block : ℕ) (address : Text) (delta : ℤ)
    (holders after : Holders) (state : ReplayedHolderBalance)
    → state.asset_id ≡ of_asset
    → balance_of (find_state state.asset_id state.holder_address holders.states) ≡ state.balance
    → (next : ℤ) → pos_part next + neg_part delta ≡ neg_part next + state.balance + pos_part delta
    → change_balance holders of_asset address block state next ≡ ok after
    → held asset after.states + if_asset of_asset asset (neg_part delta)
      ≡ held asset holders.states + if_asset of_asset asset (pos_part delta)
held-change_balance asset of_asset block address delta holders after state same found (negsuc n)
      moved h =
    cc
held-change_balance asset of_asset block address delta holders after state same found (pos n) moved
      h =
    let stored = held-set_state asset (changed_state state block n) holders.states in
    subst
      (λ (x : Holders).
        held asset x.states + if_asset of_asset asset (neg_part delta)
        ≡ held asset holders.states + if_asset of_asset asset (pos_part delta))
      (ok-injective h)
      (rw (sym same) (
        moved_lem (same_asset state.asset_id asset) _ _
          (balance_of (find_state state.asset_id state.holder_address holders.states)) n
          (neg_part delta) (pos_part delta) stored (omega (arith, found, moved))))

pub held-update :
    (asset of_asset : ParallelAssetId) (block : ℕ) (address : Text) (delta : ℤ)
    (holders after : Holders)
    → update of_asset block address delta holders ≡ ok after
    → held asset after.states + counted asset of_asset address (neg_part delta)
      ≡ held asset holders.states + counted asset of_asset address (pos_part delta)
unfolding update
held-update asset of_asset block address delta holders after h =
    elim (Bool-cases (is_zero_address address)) [
      | inl nobody ↦
          subst
            (λ (x : Holders).
              held asset x.states + counted asset of_asset address (neg_part delta)
              ≡ held asset holders.states + counted asset of_asset address (pos_part delta))
            (ok-injective (rw nobody at h)) (rw nobody refl)
      | inr somebody ↦
          rw somebody (elim (Option-cases (find_state of_asset address holders.states)) [
            | inl new ↦
                held-change_balance asset of_asset block address delta holders after
                  (state_or_new of_asset address block none) refl (ap balance_of new)
                  (pos 0 +ℤ delta) (omega (arith, +ℤ_parts (pos 0) delta)) (rw (somebody, new) at h)
            | inr (state, old) ↦
                let (asset_same, address_same) =
                  find_state-key of_asset address holders.states state old in
                held-change_balance asset of_asset block address delta holders after state
                  asset_same (rw (asset_same, address_same, old) refl) (pos state.balance +ℤ delta)
                  (omega (arith, +ℤ_parts (pos state.balance) delta)) (rw (somebody, old) at h)
          ])
    ]
