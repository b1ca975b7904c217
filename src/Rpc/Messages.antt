-- ===== src/Rpc/Messages.antt =====
-- src/indexer/planner.ts and src/rpc/provider-failover.ts: what the text of a provider's error
-- says.
use parallel_usdp_hyperevm_i.Prelude.{
  ℕ, ◌+◌, ◌-◌, ◌*◌, ◌<◌, ◌≤◌, ◌≡◌, Bool, true, false, ◌&&◌, ◌||◌, [], ◌∷◌, map, Option, none, some,
  arith, leb, ltb, ◌==◌, if◌then◌else◌,
}
use parallel_usdp_hyperevm_i.Prelude.Text.{
  Text, codes, to_lower, to_lower_case, underscore_to_space, includes,
}
use parallel_usdp_hyperevm_i.Planner.{RpcErrorClass, range_limit, rate_limit, transient, fatal}

-- `.toLowerCase().replaceAll("_", " ")`
unfoldable pub normalized_message : Text → Text
unfolding to_lower_case underscore_to_space
normalized_message message = map underscore_to_space (to_lower_case message)

unfoldable pub mentions_range_limit : Text → Bool
unfolding includes
mentions_range_limit message =
    includes (codes "block range") message
    || includes (codes "range limit") message
    || (includes (codes "limited to a") message && includes (codes "range") message)
    || includes (codes "query exceeds") message
    || includes (codes "response size") message
    || includes (codes "too many results") message

unfoldable pub mentions_rate_limit : Text → Bool
unfolding includes
mentions_rate_limit message =
    includes (codes "429") message
    || includes (codes "too many requests") message
    || includes (codes "rate limit") message
    || includes (codes "compute units per second") message
    || includes (codes "throughput") message

unfoldable pub mentions_outage : Text → Bool
unfolding includes
mentions_outage message =
    includes (codes "timeout") message
    || includes (codes "timed out") message
    || includes (codes "503") message
    || includes (codes "502") message
    || includes (codes "500") message
    || includes (codes "temporarily") message
    || includes (codes "network") message
    || includes (codes "fetch failed") message

unfoldable pub classify_rpc_error : Text → RpcErrorClass
unfolding normalized_message mentions_range_limit mentions_rate_limit mentions_outage
classify_rpc_error error =
    let message = normalized_message error in
    if mentions_range_limit message
    then range_limit
    else if mentions_rate_limit message
    then rate_limit
    else if mentions_outage message
    then transient
    else fatal

unfoldable pub is_daily_request_quota_error : Text → Bool
unfolding normalized_message includes
is_daily_request_quota_error error =
    let message = normalized_message error in
    includes (codes "daily request limit") message
    || includes (codes "daily requests limit") message
    || includes (codes "daily quota") message
    || (includes (codes "x-ratelimit-remaining") message && includes (codes "0") message)

-- The class `\s` of a regular expression.
unfoldable pub is_space : ℕ → Bool
is_space c =
    (leb 9 c && leb c 13)
    || c == 32
    || c == 160
    || c == 5760
    || (leb 8192 c && leb c 8202)
    || c == 8232
    || c == 8233
    || c == 8239
    || c == 8287
    || c == 12288
    || c == 65279

abbrev pub is_digit : ℕ → Bool
is_digit c = leb b'0' c && leb c b'9'

-- What is left behind a literal part, read without regard to case.
unfoldable pub after_literal : Text → Text → Option Text
unfolding to_lower
after_literal [] t = some t
after_literal (p ∷ ps) [] = none
after_literal (p ∷ ps) (c ∷ cs) = if p == to_lower c then after_literal ps cs else none

unfoldable pub skip_spaces : Text → Text
unfolding is_space
skip_spaces [] = []
skip_spaces (c ∷ cs) = if is_space c then skip_spaces cs else c ∷ cs

-- `\s+`
unfoldable pub after_spaces : Text → Option Text
unfolding is_space skip_spaces
after_spaces [] = none
after_spaces (c ∷ cs) = if is_space c then some (skip_spaces cs) else none

-- The digits read so far have the value `n`.
unfoldable pub read_digits : ℕ → Text → ℕ × Text
read_digits n [] = (n, [])
read_digits n (c ∷ cs) =
    let more = read_digits (n * 10 + (c - b'0')) cs in if is_digit c then more else (n, c ∷ cs)

-- `(\d+)`
unfoldable pub after_number : Text → Option (ℕ × Text)
unfolding read_digits
after_number [] = none
after_number (c ∷ cs) = if is_digit c then some (read_digits 0 (c ∷ cs)) else none

infixl 5 ◌>>=?◌
abbrev pub ◌>>=?◌ {ℓ κ} : {A : Type ℓ} {B : Type κ} → Option A → (A → Option B) → Option B
none >>=? f = none
some a >>=? f = f a

-- `part?`: the rest behind the part, or the text itself.
abbrev pub or_else : Option Text → Text → Text
or_else none t = t
or_else (some rest) t = rest

abbrev pub has_value : Option Text → Bool
has_value none = false
has_value (some rest) = true

-- `(?:block\s+)?range`
unfoldable pub after_range_word : Text → Bool
unfolding after_literal after_spaces
after_range_word t =
    has_value (
      after_literal (codes "range") (or_else (after_literal (codes "block") t >>=? after_spaces) t))

-- `(\d+)\s+(?:block\s+)?range`
unfoldable pub limit_and_range : Text → Option ℕ
unfolding after_number after_spaces after_range_word
limit_and_range t = after_number t >>=? λ number.
    after_spaces number.1 >>=? λ rest. if after_range_word rest then some number.0 else none

-- `limited to an?\s+(\d+)\s+(?:block\s+)?range` at the head of a text.
unfoldable pub limit_here : Text → Option ℕ
unfolding after_literal after_spaces limit_and_range
limit_here t = after_literal (codes "limited to a") t >>=? λ rest.
    after_spaces (or_else (after_literal (codes "n") rest) rest) >>=? limit_and_range

abbrev pub first_some : Option ℕ → Option ℕ → Option ℕ
first_some none other = other
first_some (some n) other = some n

-- `message.match(…)`: the leftmost match.
unfoldable pub match_limit : Text → Option ℕ
unfolding limit_here
match_limit [] = limit_here []
match_limit (c ∷ cs) = first_some (limit_here (c ∷ cs)) (match_limit cs)

-- `Number.MAX_SAFE_INTEGER`; a larger number rounds to one that is not safe.
abbrev pub max_safe_integer : ℕ
max_safe_integer = 9_007_199_254_740_991

unfoldable pub provider_range_limit : Text → Option ℕ
unfolding match_limit
provider_range_limit error = match_limit error >>=? λ limit.
    if leb limit max_safe_integer && ltb 0 limit then some limit else none

-- A limit that is read from an error is positive and a safe integer.
pub provider_range_limit_bounds :
    (error : Text) (limit : ℕ)
    → provider_range_limit error ≡ some limit
    → (0 < limit) × (limit ≤ max_safe_integer)
unfolding provider_range_limit
provider_range_limit_bounds error limit h = ground arith
