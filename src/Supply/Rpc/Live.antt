-- ===== src/Supply/Rpc/Live.antt =====
-- A supply operation that succeeds at one of its attempts is run to a value.
use parallel_usdp_hyperevm_i.Prelude.{
  length-append, ℕ, zero, suc, ◌+◌, ◌*◌, ◌<◌, ◌≡◌, refl, String, List, [], ◌∷◌, ◌++◌, Result, ok,
  Result-cases, inl, inr, length, arith, ◌==◌, subst, false,
}
use parallel_usdp_hyperevm_i.Prelude.Text.{Text}
use parallel_usdp_hyperevm_i.Supply.Rpc.{try_url, try_urls, run_with_supply_rpc_failover}

module _ {T : Type 0} (operation : ℕ → String → Result Text T) where
  abbrev pub Returns : {E : Type 0} → Result E T → Type 0
  Returns result = (value : T) × (result ≡ ok value)

  try_url-Returns :
      (call : ℕ) (rpc_url : String) (left : ℕ) (last_error : Text) (attempt : ℕ) (value : T)
      → attempt < left
      → operation (call + attempt) rpc_url ≡ ok value
      → Returns (try_url operation call rpc_url left last_error)
  unfolding try_url
  try_url-Returns call rpc_url zero last_error attempt value h e = absurd (omega arith)
  try_url-Returns call rpc_url (suc left) last_error zero value h e =
      let now : operation call rpc_url ≡ ok value =
        subst (λ (n : ℕ). operation n rpc_url ≡ ok value) (omega arith) e in
      (value, rw (now, try_url) refl)
  try_url-Returns call rpc_url (suc left) last_error (suc later) value h e =
      elim (Result-cases (operation call rpc_url)) [
        | inl (first, now) ↦ (first, rw (now, try_url) refl)
        | inr (message, fails) ↦
            let (found, then_found) =
              try_url-Returns (suc call) rpc_url left message later value (omega arith)
                (subst (λ (n : ℕ). operation n rpc_url ≡ ok value) (omega arith) e) in
            (found, rw (fails, try_url) then_found)
      ]

  try_urls-Returns :
      (attempts call : ℕ) (front : List String) (rpc_url : String) (back : List String)
      (last_error : Text) (attempt : ℕ) (value : T)
      → attempt < attempts
      → operation (call + length front * attempts + attempt) rpc_url ≡ ok value
      → Returns (try_urls operation attempts call (front ++ rpc_url ∷ back) last_error)
  unfolding try_urls
  try_urls-Returns attempts call [] rpc_url back last_error attempt value h e =
      let (found, now) =
        try_url-Returns call rpc_url attempts last_error attempt value h
          (subst (λ (n : ℕ). operation n rpc_url ≡ ok value) (omega arith) e) in
      (found, rw (now, try_urls) refl)
  try_urls-Returns attempts call (url ∷ front) rpc_url back last_error attempt value h e =
      elim (Result-cases (try_url operation call url attempts last_error)) [
        | inl (found, now) ↦ (found, rw (now, try_urls) refl)
        | inr (message, fails) ↦
            let (found, later) =
              try_urls-Returns attempts (call + attempts) front rpc_url back message attempt value h
                (subst (λ (n : ℕ). operation n rpc_url ≡ ok value) (omega arith) e) in
            (found, rw (fails, try_urls) later)
      ]

  -- If some attempt at some URL succeeds, at the number of calls at which it is due when all before
  -- it fail, then the run returns a value.
  pub run_with_supply_rpc_failover-Returns :
      (attempts : ℕ) (front : List String) (rpc_url : String) (back : List String) (attempt : ℕ)
      (value : T)
      → attempt < attempts
      → operation (length front * attempts + attempt) rpc_url ≡ ok value
      → Returns (run_with_supply_rpc_failover operation (front ++ rpc_url ∷ back) attempts)
  unfolding run_with_supply_rpc_failover
  run_with_supply_rpc_failover-Returns attempts front rpc_url back attempt value h e =
      let (found, now) =
        try_urls-Returns attempts 0 front rpc_url back [] attempt value h
          (subst (λ (n : ℕ). operation n rpc_url ≡ ok value) (omega arith) e) in
      let some_url : (length (front ++ rpc_url ∷ back) == 0) ≡ false =
        ground (arith, length-append front (rpc_url ∷ back)) in
      let some_attempt : (attempts == 0) ≡ false = ground arith in
      (found, rw (some_url) (rw some_attempt (rw now refl)))
