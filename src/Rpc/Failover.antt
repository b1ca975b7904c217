-- ===== src/Rpc/Failover.antt =====
-- src/rpc/provider-failover.ts: `runWithProviderFailover`. The operation is a function of the place
-- of the provider in the list, since it is awaited once for each provider that is tried.
pub mod Order
use parallel_usdp_hyperevm_i.Prelude.{
  ℕ, suc, String, Bool, true, false, List, [], ◌∷◌, Result, ok, err, if◌then◌else◌,
}
use parallel_usdp_hyperevm_i.Prelude.Text.{Text}
use parallel_usdp_hyperevm_i.Rpc.Messages.{is_daily_request_quota_error}
use parallel_usdp_hyperevm_i.Rpc.Redaction.{provider_error_message}

pub record RpcProviderCandidate : Type 0 where
  pub id : String
  pub rpc_url : String
  pub chunk_size : ℕ
  pub request_interval_ms : ℕ

-- The reason is always "daily-quota-exhausted".
pub record RpcProviderFailoverEvent : Type 0 where
  pub failed_provider_id : String
  pub next_provider_id : String
  pub message : Text

pub data FailoverError : Type 0 where
  no_provider : FailoverError
  rpc_error : Text → FailoverError

module _ {T : Type 0} (operation : ℕ → RpcProviderCandidate → Result Text T) where
  abbrev pub Outcome : Type 0
  Outcome = Result FailoverError T × List RpcProviderFailoverEvent

  abbrev with_event : RpcProviderFailoverEvent → Outcome → Outcome
  with_event event (result, events) = (result, event ∷ events)

  -- The `catch` block: `retry` is the rest of the loop.
  abbrev pub handle_failure :
      RpcProviderCandidate → List RpcProviderCandidate → Text → Outcome → Outcome
  handle_failure provider [] message retry = (err (rpc_error message), [])
  handle_failure provider (next_provider ∷ _) message retry =
      if is_daily_request_quota_error message
      then with_event
          (record {
            failed_provider_id = provider.id;
            next_provider_id = next_provider.id;
            message = provider_error_message message;
          })
          retry
      else (err (rpc_error message), [])

  -- The loop, from the provider at `index` on. It never runs past the last provider: that one's
  -- error is thrown.
  unfoldable pub try_providers : ℕ → RpcProviderCandidate → List RpcProviderCandidate → Outcome
  try_providers index provider [] = elim (operation index provider) [
    | ok value ↦ (ok value, [])
    | err message ↦ (err (rpc_error message), [])
  ]
  try_providers index provider (next_provider ∷ rest) = elim (operation index provider) [
    | ok value ↦ (ok value, [])
    | err message ↦
        handle_failure provider (next_provider ∷ rest) message
          (try_providers (suc index) next_provider rest)
  ]

  unfoldable pub run_with_provider_failover : List RpcProviderCandidate → Outcome
  unfolding try_providers
  run_with_provider_failover [] = (err no_provider, [])
  run_with_provider_failover (provider ∷ rest) = try_providers 0 provider rest
