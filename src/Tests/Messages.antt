-- ===== src/Tests/Messages.antt =====
-- What is read of the messages of providers.
use parallel_usdp_hyperevm_i.Prelude.{◌≡◌, refl, some}
use parallel_usdp_hyperevm_i.Prelude.Text.{codes}
use parallel_usdp_hyperevm_i.Planner.{rate_limit, range_limit, fatal}
use parallel_usdp_hyperevm_i.Rpc.Messages.{classify_rpc_error, provider_range_limit}
use parallel_usdp_hyperevm_i.Rpc.Redaction.{provider_error_message}

reads_alchemy :
    provider_range_limit (codes "Query is LIMITED to a 10 block range, upgrade") ≡ some 10
unfolding provider_range_limit
reads_alchemy = refl

reads_an : provider_range_limit (codes "you are limited to an 800  range") ≡ some 800
unfolding provider_range_limit
reads_an = refl

classified :
    (classify_rpc_error (codes "HTTP 429 Too_Many Requests") ≡ rate_limit)
    × (classify_rpc_error (codes "query exceeds max_results: 500") ≡ range_limit)
    × (classify_rpc_error (codes "execution reverted") ≡ fatal)
unfolding classify_rpc_error
classified = (refl, refl, refl)

-- Any digits 429 in a message make it a rate limit.
block_number_classified :
    classify_rpc_error (codes "execution reverted at block 25429000") ≡ rate_limit
unfolding classify_rpc_error
block_number_classified = refl

redacted :
    provider_error_message (codes "at (HTTPS://eth.io/v2/key) x")
    ≡ codes "at ([redacted-provider-url]) x"
unfolding provider_error_message
redacted = refl
