-- ===== src/Rpc/Secrets.antt =====
-- src/rpc/alchemy.ts: `redactSecrets`.
use parallel_usdp_hyperevm_i.Prelude.{
  ℕ, zero, suc, ◌-◌, true, false, List, [], ◌∷◌, ◌++◌, ltb, if◌then◌else◌, length,
}
use parallel_usdp_hyperevm_i.Prelude.Text.{Text, codes, starts_with}

-- `text.replaceAll(secret, "[REDACTED]")`; `skip` characters of a match are still to go.
unfoldable pub replace_all : Text → ℕ → Text → Text
unfolding starts_with
replace_all secret skip [] = []
replace_all secret (suc skip) (c ∷ cs) = replace_all secret skip cs
replace_all secret zero (c ∷ cs) = elim (starts_with secret (c ∷ cs)) [
  | true ↦ codes "[REDACTED]" ++ replace_all secret (length secret - 1) cs
  | false ↦ c ∷ replace_all secret zero cs
]

-- Secrets of fewer than eight characters are left alone.
unfoldable pub redact_secrets : Text → List Text → Text
unfolding replace_all
redact_secrets message [] = message
redact_secrets message (secret ∷ secrets) =
    redact_secrets (if ltb (length secret) 8 then message else replace_all secret 0 message) secrets
