-- ===== src/Supply/Capture/Chains.antt =====
-- A captured component is of its adapter's chain, and so is a failure.
use parallel_usdp_hyperevm_i.Prelude.{
  ℕ, zero, suc, ◌+◌, ◌≡◌, inl, inr, refl, String, List, [], ◌∷◌, Option, none, some, Result, ok,
  Result-cases, Bool-cases, >>=-eq-ok, map, length, ◌∙◌, ap, sym, ok-injective, ◌==◌,
}
use parallel_usdp_hyperevm_i.Prelude.Text.{Text, to_lower_case}
use parallel_usdp_hyperevm_i.Supply.{UsdpSupplyComponent}
use parallel_usdp_hyperevm_i.Supply.Rpc.{try_url, try_urls, run_with_supply_rpc_failover}
use parallel_usdp_hyperevm_i.Supply.Component.{
  has_code, ClientBlock, FinalityMode, SupplyAdapter, SupplyClient, SupplyState,
  capture_usdp_supply_component, with_reads, finalized_block, store_component, block_row,
  insert_block, has_code, FinalityMode, ClientBlock, TokenReads,
}
use parallel_usdp_hyperevm_i.Supply.Capture.{
  ConfiguredAdapter, SupplySettings, Attempt, captured, failed, capture_all, configured_chain,
  operation, capture_adapter,
}

module _ {T : Type 0} (P : T → Type 0) (operation : ℕ → String → Result Text T) where
  -- What holds of every value that the operation returns holds of the value of the run.
  abbrev AllReturned : Type 0
  AllReturned = (call : ℕ) (url : String) (value : T) → operation call url ≡ ok value → P value

  try_url_lem :
      AllReturned
      → (call : ℕ) (url : String) (left : ℕ) (last : Text) (value : T)
      → try_url operation call url left last ≡ ok value
      → P value
  unfolding try_url
  try_url_lem f call url zero last value h = cc h
  try_url_lem f call url (suc left) last value h = elim (Result-cases (operation call url)) [
    | inl (first, now) ↦ f call url value (now ∙ rw (now, try_url) at h)
    | inr (message, fails) ↦
        try_url_lem f (suc call) url left message value (rw (fails, try_url) at h)
  ]

  try_urls_lem :
      AllReturned
      → (attempts call : ℕ) (urls : List String) (last : Text) (value : T)
      → try_urls operation attempts call urls last ≡ ok value
      → P value
  unfolding try_urls
  try_urls_lem f attempts call [] last value h = cc h
  try_urls_lem f attempts call (url ∷ urls) last value h =
      elim (Result-cases (try_url operation call url attempts last)) [
        | inl (first, now) ↦
            try_url_lem f call url attempts last value (now ∙ rw (now, try_urls) at h)
        | inr (message, fails) ↦
            try_urls_lem f attempts (call + attempts) urls message value (rw (fails, try_urls) at h)
      ]

  run_lem :
      AllReturned
      → (urls : List String) (attempts : ℕ) (value : T)
      → run_with_supply_rpc_failover operation urls attempts ≡ ok value
      → P value
  unfolding run_with_supply_rpc_failover
  run_lem f urls attempts value h = elim (Bool-cases (length urls == 0)) [
    | inl e ↦ cc (rw e at h)
    | inr e ↦ elim (Bool-cases (attempts == 0)) [
      | inl z ↦ cc (rw z at (rw e at h))
      | inr z ↦ elim (Result-cases (try_urls operation attempts 0 urls [])) [
        | inl (found, now) ↦
            try_urls_lem f attempts 0 urls [] value (now ∙ cc (rw now at (rw z at (rw e at h))))
        | inr (message, fails) ↦ cc (rw fails at (rw z at (rw e at h)))
      ]
    ]
  ]

store_component-chain :
    (adapter : SupplyAdapter) (mode : FinalityMode) (number : ℕ) (hash parent_hash : Text)
    (timestamp : ℕ) (reads : TokenReads) (state : SupplyState)
    (value : UsdpSupplyComponent × SupplyState)
    → store_component adapter mode number hash parent_hash timestamp reads state ≡ ok value
    → value.0.chain_id ≡ adapter.chain_id
store_component-chain adapter mode number hash parent_hash timestamp reads state value h =
    let (blocks, inserted, last) =
      >>=-eq-ok
        (insert_block (block_row adapter number (to_lower_case hash) parent_hash timestamp)
          state.blocks)
        _ h in
    ap (λ (v : UsdpSupplyComponent × SupplyState). v.0.chain_id) (sym (ok-injective last))

with_reads-chain :
    (adapter : SupplyAdapter) (client : SupplyClient) (mode : FinalityMode) (block : ClientBlock)
    (number : Option ℕ) (hash : Option Text) (state : SupplyState)
    (value : UsdpSupplyComponent × SupplyState)
    → with_reads adapter client mode block number hash state ≡ ok value
    → value.0.chain_id ≡ adapter.chain_id
with_reads-chain adapter client mode block none hash state value h = cc h
with_reads-chain adapter client mode block (some number) none state value h = cc h
with_reads-chain adapter client mode block (some number) (some hash) state value h =
    let (reads, answered, rest) = >>=-eq-ok (client.read number) _ h in
    elim (Bool-cases (has_code reads.bytecode)) [
      | inr e ↦ cc (rw e at rest)
      | inl e ↦
          store_component-chain adapter mode number hash block.parent_hash block.timestamp reads
            state value (rw e at rest)
    ]

component-chain :
    (adapter : SupplyAdapter) (client : SupplyClient) (lag observed_at skew : ℕ)
    (state : SupplyState) (value : UsdpSupplyComponent × SupplyState)
    → capture_usdp_supply_component adapter client lag observed_at skew state ≡ ok value
    → value.0.chain_id ≡ adapter.chain_id
unfolding capture_usdp_supply_component
component-chain adapter client lag observed_at skew state value h =
    let (found, asked, rest) =
      >>=-eq-ok (finalized_block client adapter.finality lag observed_at skew) _ h in
    with_reads-chain adapter client found.1 found.0 found.0.number found.0.hash state value rest

abbrev pub attempt_chain : Attempt → ℕ
attempt_chain (captured component) = component.chain_id
attempt_chain (failed failure) = failure.chain_id

module _ (client : ℕ → ℕ → String → SupplyClient) (settings : SupplySettings) (as_of : ℕ) where
  attempt-chain :
      (configured : ConfiguredAdapter) (secrets : List Text) (state : SupplyState)
      → attempt_chain (capture_adapter client settings as_of secrets configured state).0
        ≡ configured_chain configured
  attempt-chain configured secrets state =
      elim (Result-cases (
        run_with_supply_rpc_failover (operation client settings as_of configured.adapter state)
          configured.rpc_urls settings.attempts_per_url)) [
            | inr (error, fails) ↦ rw fails refl
            | inl (value, returns) ↦ rw returns (
                run_lem
                  (λ (v : UsdpSupplyComponent × SupplyState).
                    v.0.chain_id ≡ configured_chain configured)
                  (operation client settings as_of configured.adapter state)
                  (λ call url v e. component-chain configured.adapter _ _ _ _ state v e)
                  configured.rpc_urls settings.attempts_per_url value returns)
          ]

  pub attempts-chains :
      (secrets : List Text) (adapters : List ConfiguredAdapter) (state : SupplyState)
      → map attempt_chain (capture_all client settings as_of secrets adapters state).0
        ≡ map configured_chain adapters
  unfolding capture_all
  attempts-chains secrets [] state = refl
  attempts-chains secrets (configured ∷ rest) state =
      let step = capture_adapter client settings as_of secrets configured state in
      rw (attempt-chain configured secrets state, attempts-chains secrets rest step.1) refl
