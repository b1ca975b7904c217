-- ===== src/Holders.antt =====
-- src/analytics/holders.ts: `replayHolderTransfers`. Amounts that have passed the source's test for
-- negative values are natural numbers; times are milliseconds.
pub mod Replay
pub mod Conserved
pub mod Transfers
pub mod Minted
use parallel_usdp_hyperevm_i.Prelude.{
  ℕ, ◌+◌, Bool, true, false, not, ◌&&◌, ◌||◌, ◌==◌, ltb, leb, List, [], ◌∷◌, ◌++◌, Option, none,
  some, if◌then◌else◌, Result, ok, err, ◌>>=◌, any, all, length,
}
use parallel_usdp_hyperevm_i.Prelude.Int.{ℤ, pos, negsuc, ◌+ℤ◌}
use parallel_usdp_hyperevm_i.Prelude.Text.{Text, codes, text_eq, to_lower_case}

pub data ParallelAssetId : Type 0 where
  usdp susdp : ParallelAssetId

abbrev pub same_asset : ParallelAssetId → ParallelAssetId → Bool
same_asset usdp usdp = true
same_asset usdp susdp = false
same_asset susdp usdp = false
same_asset susdp susdp = true

pub record TransferReplayEvent : Type 0 where
  pub asset_id : ParallelAssetId
  pub block_number : ℕ
  pub block_timestamp : ℕ
  pub log_index : ℕ
  pub from : Text
  pub to : Text
  pub value : ℤ

pub record ReplayedHolderBalance : Type 0 where
  pub asset_id : ParallelAssetId
  pub holder_address : Text
  pub balance : ℕ
  pub first_positive_block : Option ℕ
  pub last_changed_block : ℕ

pub data ReplayError : Type 0 where
  negative_value : ReplayError
  invalid_address : Text → ReplayError
  became_negative : ParallelAssetId → Text → ℕ → ReplayError

abbrev pub zero_address : Text
zero_address = codes "0x0000000000000000000000000000000000000000"

-- A lower-case hexadecimal digit.
abbrev pub is_hex_digit : ℕ → Bool
is_hex_digit c = (leb b'0' c && leb c b'9') || (leb b'a' c && leb c b'f')

-- `/^0x[0-9a-f]{40}$/`
unfoldable pub is_address : Text → Bool
is_address [] = false
is_address (a ∷ []) = false
is_address (a ∷ b ∷ digits) =
    a == b'0' && b == b'x' && length digits == 40 && all is_hex_digit digits

unfoldable pub normalized_address : Text → Result ReplayError Text
unfolding is_address
normalized_address value =
    let address = to_lower_case value in
    if is_address address then ok address else err (invalid_address value)

abbrev pub is_zero_address : Text → Bool
is_zero_address address = text_eq address zero_address

-- The key `asset:address` of the source's map.
abbrev pub same_holder : ParallelAssetId → Text → ReplayedHolderBalance → Bool
same_holder asset address state =
    same_asset state.asset_id asset && text_eq state.holder_address address

unfoldable pub find_state :
    ParallelAssetId → Text → List ReplayedHolderBalance → Option ReplayedHolderBalance
unfolding text_eq
find_state asset address [] = none
find_state asset address (state ∷ rest) =
    if same_holder asset address state then some state else find_state asset address rest

-- `Map.set`: a new key comes last.
unfoldable pub set_state :
    ReplayedHolderBalance → List ReplayedHolderBalance → List ReplayedHolderBalance
unfolding text_eq
set_state state [] = state ∷ []
set_state state (other ∷ rest) =
    if same_holder state.asset_id state.holder_address other
    then state ∷ rest
    else other ∷ set_state state rest

abbrev pub state_or_new :
    ParallelAssetId → Text → ℕ → Option ReplayedHolderBalance → ReplayedHolderBalance
state_or_new asset address block none = record {
  asset_id = asset;
  holder_address = address;
  balance = 0;
  first_positive_block = none;
  last_changed_block = block;
}
state_or_new asset address block (some state) = state

abbrev pub becomes_holder : ReplayedHolderBalance → ℕ → Bool
becomes_holder state next_balance = elim state.first_positive_block [
  | none ↦ ltb 0 next_balance
  | some _ ↦ false
]

-- The states and the number of new holders of the event's asset.
pub record Holders : Type 0 where
  pub states : List ReplayedHolderBalance
  pub new_holders : ℕ

abbrev pub changed_state : ReplayedHolderBalance → ℕ → ℕ → ReplayedHolderBalance
changed_state state block next_balance = record state {
  balance = next_balance;
  first_positive_block =
      if becomes_holder state next_balance then some block else state.first_positive_block;
  last_changed_block = block;
}

abbrev pub change_balance :
    Holders → ParallelAssetId → Text → ℕ → ReplayedHolderBalance → ℤ → Result ReplayError Holders
change_balance holders asset address block state (negsuc _) =
    err (became_negative asset address block)
change_balance holders asset address block state (pos next_balance) = ok (record {
  states = set_state (changed_state state block next_balance) holders.states;
  new_holders =
      if becomes_holder state next_balance then holders.new_holders + 1 else holders.new_holders;
})

unfoldable pub update : ParallelAssetId → ℕ → Text → ℤ → Holders → Result ReplayError Holders
unfolding find_state set_state
update asset block address delta holders =
    let state = state_or_new asset address block (find_state asset address holders.states) in
    if is_zero_address address
    then ok holders
    else change_balance holders asset address block state (pos state.balance +ℤ delta)
