-- ===== src/Supply/Rpc.antt =====
-- src/analytics/usdp-supply.ts: `runWithSupplyRpcFailover`. The operation is a function of the
-- number of calls made before, since each call is awaited before the next; the pauses between the
-- attempts change nothing else.
pub mod Live
use parallel_usdp_hyperevm_i.Prelude.{
  ℕ, zero, suc, ◌+◌, String, List, [], ◌∷◌, ◌==◌, if◌then◌else◌, Result, ok, err, length,
}
use parallel_usdp_hyperevm_i.Prelude.Text.{Text}
use parallel_usdp_hyperevm_i.Rpc.Redaction.{provider_error_message}

-- `all_failed` has the number of URLs, the attempts for each, and the last error's message.
pub data SupplyRpcError : Type 0 where
  no_candidates bad_attempts : SupplyRpcError
  all_failed : ℕ → ℕ → Text → SupplyRpcError

module _ {T : Type 0} (operation : ℕ → String → Result Text T) where
  -- The attempts at one URL that are left, after `call` calls. `last_error` is the last message.
  unfoldable pub try_url : ℕ → String → ℕ → Text → Result Text T
  try_url call rpc_url zero last_error = err last_error
  try_url call rpc_url (suc left) last_error = elim (operation call rpc_url) [
    | ok value ↦ ok value
    | err message ↦ try_url (suc call) rpc_url left message
  ]

  unfoldable pub try_urls : ℕ → ℕ → List String → Text → Result Text T
  unfolding try_url
  try_urls attempts_per_rpc call [] last_error = err last_error
  try_urls attempts_per_rpc call (rpc_url ∷ rest) last_error =
      elim (try_url call rpc_url attempts_per_rpc last_error) [
        | ok value ↦ ok value
        | err message ↦ try_urls attempts_per_rpc (call + attempts_per_rpc) rest message
      ]

  abbrev pub or_all_failed : List String → ℕ → Result Text T → Result SupplyRpcError T
  or_all_failed rpc_urls attempts_per_rpc (ok value) = ok value
  or_all_failed rpc_urls attempts_per_rpc (err message) =
      err (all_failed (length rpc_urls) attempts_per_rpc (provider_error_message message))

  unfoldable pub run_with_supply_rpc_failover : List String → ℕ → Result SupplyRpcError T
  unfolding try_urls
  run_with_supply_rpc_failover rpc_urls attempts_per_rpc =
      if length rpc_urls == 0
      then err no_candidates
      else if attempts_per_rpc == 0
      then err bad_attempts
      else or_all_failed rpc_urls attempts_per_rpc (try_urls attempts_per_rpc 0 rpc_urls [])
