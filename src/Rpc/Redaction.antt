-- ===== src/Rpc/Redaction.antt =====
-- src/rpc/errors.ts: `providerErrorMessage`, which cuts provider URLs out of a message.
pub mod Safe
use parallel_usdp_hyperevm_i.Prelude.{
  ℕ, Bool, true, false, not, ◌&&◌, ◌||◌, [], ◌∷◌, ◌++◌, Option, none, some, ◌==◌,
}
use parallel_usdp_hyperevm_i.Prelude.Text.{Text, codes}
use parallel_usdp_hyperevm_i.Rpc.Messages.{is_space, after_literal, or_else, ◌>>=?◌}

-- The class `[^\s"')]`.
unfoldable pub is_url_char : ℕ → Bool
unfolding is_space
is_url_char c = not (is_space c || c == b'"' || c == 0x27 || c == b')')

abbrev pub opens_with_url_char : Option Text → Bool
opens_with_url_char none = false
opens_with_url_char (some []) = false
opens_with_url_char (some (c ∷ cs)) = is_url_char c

-- A scheme, the optional `s`, `://` and one more character.
unfoldable pub scheme_here : Text → Text → Bool
unfolding after_literal is_url_char
scheme_here scheme t = opens_with_url_char (
    after_literal scheme t >>=? λ rest.
    after_literal (codes "://") (or_else (after_literal (codes "s") rest) rest))

-- `(?:https?|wss?):\/\/[^\s"')]+` at the head of a text.
unfoldable pub url_here : Text → Bool
unfolding scheme_here
url_here t = scheme_here (codes "http") t || scheme_here (codes "ws") t

abbrev pub marker : Text
marker = codes "[redacted-provider-url]"

-- `replace(providerUrlPattern, …)` with the flags `gi`. Each character of a scheme and of `://` is
-- in the class as well, so a match is a longest run of the class.
unfoldable pub redact : Bool → Text → Text
unfolding url_here is_url_char
redact in_url [] = []
redact true (c ∷ cs) = elim (is_url_char c) [ true ↦ redact true cs | false ↦ c ∷ redact false cs ]
redact false (c ∷ cs) = elim (url_here (c ∷ cs)) [
  | true ↦ marker ++ redact true cs
  | false ↦ c ∷ redact false cs
]

unfoldable pub provider_error_message : Text → Text
unfolding redact
provider_error_message message = redact false message
