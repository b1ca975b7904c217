-- ===== src/Rpc/Failover/Order.antt =====
-- Which provider's answer a run returns.
use parallel_usdp_hyperevm_i.Prelude.{
  Result-cases, ℕ, suc, true, false, List, [], ◌∷◌, ◌≡◌, Result, ok, err, length, inl, inr,
  Bool-cases,
}
use parallel_usdp_hyperevm_i.Prelude.Text.{Text}
use parallel_usdp_hyperevm_i.Rpc.Messages.{is_daily_request_quota_error}
use parallel_usdp_hyperevm_i.Rpc.Failover.{
  RpcProviderCandidate, FailoverError, rpc_error, try_providers, run_with_provider_failover,
}

module _ {T : Type 0} (operation : ℕ → RpcProviderCandidate → Result Text T) where
  -- A legal end of a run that has come to the provider at `index`: it answers, or it fails for
  -- good, or its daily quota is used up and the next provider ends the run.
  pub data Ends : ℕ → List RpcProviderCandidate → Result FailoverError T → ℕ → Type 0 where
    answered :
        {index : ℕ} {provider : RpcProviderCandidate} {rest : List RpcProviderCandidate} {value : T}
        → operation index provider ≡ ok value
        → Ends index (provider ∷ rest) (ok value) 0
    last_failed :
        {index : ℕ} {provider : RpcProviderCandidate} {message : Text}
        → operation index provider ≡ err message
        → Ends index (provider ∷ []) (err (rpc_error message)) 0
    gave_up :
        {index : ℕ} {provider : RpcProviderCandidate} {rest : List RpcProviderCandidate}
        {message : Text}
        → operation index provider ≡ err message
        → is_daily_request_quota_error message ≡ false
        → Ends index (provider ∷ rest) (err (rpc_error message)) 0
    failed_over :
        {index : ℕ} {provider : RpcProviderCandidate} {rest : List RpcProviderCandidate}
        {message : Text} {result : Result FailoverError T} {events : ℕ}
        → operation index provider ≡ err message
        → is_daily_request_quota_error message ≡ true
        → Ends (suc index) rest result events
        → Ends index (provider ∷ rest) result (suc events)

  try_providers-Ends :
      (index : ℕ) (provider : RpcProviderCandidate) (rest : List RpcProviderCandidate)
      → Ends index
          (provider ∷ rest)
          (try_providers operation index provider rest).0
          (length (try_providers operation index provider rest).1)
  unfolding try_providers
  try_providers-Ends index provider [] = elim (Result-cases (operation index provider)) [
    | inl (value, e) ↦ rw (e, try_providers) (answered e)
    | inr (message, e) ↦ rw (e, try_providers) (last_failed e)
  ]
  try_providers-Ends index provider (next ∷ rest) = elim (Result-cases (operation index provider)) [
    | inl (value, e) ↦ rw (e, try_providers) (answered e)
    | inr (message, e) ↦ elim (Bool-cases (is_daily_request_quota_error message)) [
      | inl quota ↦
          rw (e, try_providers)
            (rw quota (failed_over e quota (try_providers-Ends (suc index) next rest)))
      | inr other ↦ rw (e, try_providers) (rw other (gave_up e other))
    ]
  ]

  -- With at least one provider, a run ends with the answer of one of them: every provider before it
  -- has failed by its daily quota, one event was sent for each, and an error that is thrown is the
  -- last provider's or no quota error.
  pub run_with_provider_failover-Ends :
      (provider : RpcProviderCandidate) (rest : List RpcProviderCandidate)
      → Ends 0
          (provider ∷ rest)
          (run_with_provider_failover operation (provider ∷ rest)).0
          (length (run_with_provider_failover operation (provider ∷ rest)).1)
  unfolding run_with_provider_failover
  run_with_provider_failover-Ends provider rest = try_providers-Ends 0 provider rest
