-- ===== src/Flows/Payload.antt =====
-- src/analytics/economic-events.ts: the readers of a decoded event's payload.
pub mod Amounts
pub mod Decimal
use parallel_usdp_hyperevm_i.Prelude.{
  ℕ, zero, ◌+◌, ◌*◌, ◌-◌, Bool, not, ◌&&◌, leb, List, [], ◌∷◌, ◌++◌, Option, none, some, all,
  Result, ok, err, ◌>>=◌, if◌then◌else◌,
}
use parallel_usdp_hyperevm_i.Prelude.Text.{Text, text_eq, to_lower_case}
use parallel_usdp_hyperevm_i.Ingest.Store.{is_nonempty}

-- A value of the stored JSON: a text, or anything else.
pub data PayloadValue : Type 0 where
  text : Text → PayloadValue
  no_text : PayloadValue

pub data Payload : Type 0 where
  object : List (Text × PayloadValue) → Payload
  no_object : Payload

pub data PayloadError : Type 0 where
  payload_not_object : PayloadError
  missing_key not_unsigned not_address : Text → PayloadError

abbrev pub payload_record : Payload → Result PayloadError (List (Text × PayloadValue))
payload_record (object fields) = ok fields
payload_record no_object = err payload_not_object

unfoldable pub field_of : Text → List (Text × PayloadValue) → Option PayloadValue
field_of key [] = none
field_of key ((name, value) ∷ rest) = if text_eq name key then some value else field_of key rest

abbrev pub nonempty_text : Text → Option PayloadValue → Result PayloadError Text
nonempty_text key none = err (missing_key key)
nonempty_text key (some no_text) = err (missing_key key)
nonempty_text key (some (text value)) =
    if is_nonempty value then ok value else err (missing_key key)

abbrev pub payload_string : Payload → Text → Result PayloadError Text
payload_string payload key =
    payload_record payload >>= λ fields. nonempty_text key (field_of key fields)

-- The class `[0-9]`.
abbrev pub is_digit : ℕ → Bool
is_digit c = leb b'0' c && leb c b'9'

-- `/^[0-9]+$/`; a text that is read here is not empty.
unfoldable pub unsigned_amount : Payload → Text → Result PayloadError Text
unfolding field_of
unsigned_amount payload key = payload_string payload key >>= λ value.
    if all is_digit value then ok value else err (not_unsigned key)

-- `BigInt(digits)`, from the value of the digits already read.
unfoldable pub big_int_from : ℕ → Text → ℕ
big_int_from read [] = read
big_int_from read (digit ∷ digits) = big_int_from (read * 10 + (digit - b'0')) digits

abbrev pub big_int : Text → ℕ
big_int digits = big_int_from 0 digits

module _ (is_address : Text → Bool) (get_address : Text → Text) where
  unfoldable pub normalized_address : Payload → Text → Result PayloadError Text
  unfolding field_of to_lower_case
  normalized_address payload key = payload_string payload key >>= λ value.
      if is_address value then ok (to_lower_case (get_address value)) else err (not_address key)
