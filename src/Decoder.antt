-- ===== src/Decoder.antt =====
-- src/indexer/decoder.ts: which decoder a contract address has, and what a decoded log is. The ABI
-- decoder of the RPC library and the registries of addresses and topics are arguments.
pub mod Payload
pub mod Addresses
use parallel_usdp_hyperevm_i.Prelude.{
  ℕ, Bool, true, false, ◌&&◌, List, [], ◌∷◌, Option, none, some, ◌==◌, if◌then◌else◌, any, map,
  String,
}
use parallel_usdp_hyperevm_i.Prelude.Text.{Text, to_lower_case, text_eq, codes}
use parallel_usdp_hyperevm_i.Decoder.Payload.{JsValue, json_value}

pub data Abi : Type 0 where
  erc20 savings parallelizer : Abi

pub record DecoderDefinition : Type 0 where
  pub role : String
  pub version : String
  pub abi : Abi

-- The template literal of the chain and the lowered address, as the pair of its parts.
abbrev pub DecoderKey : Type 0
DecoderKey = ℕ × Text

unfoldable pub decoder_key : ℕ → Text → DecoderKey
decoder_key chain_id address = (chain_id, to_lower_case address)

abbrev pub key_eq : DecoderKey → DecoderKey → Bool
key_eq (chain_id, address) (other_chain, other) = chain_id == other_chain && text_eq address other

abbrev pub Decoders : Type 0
Decoders = List (DecoderKey × DecoderDefinition)

-- `Map.set`: a key that is there keeps its place.
unfoldable pub set_decoder : DecoderKey → DecoderDefinition → Decoders → Decoders
set_decoder key definition [] = (key, definition) ∷ []
set_decoder key definition ((other, old) ∷ rest) =
    if key_eq other key
    then (other, definition) ∷ rest
    else (other, old) ∷ set_decoder key definition rest

unfoldable pub get_decoder : DecoderKey → Decoders → Option DecoderDefinition
get_decoder key [] = none
get_decoder key ((other, definition) ∷ rest) =
    if key_eq other key then some definition else get_decoder key rest

-- The parts of an adapter of src/protocol/savings-chains.ts that the decoders are built from.
pub record SavingsAddresses : Type 0 where
  pub chain_id : ℕ
  pub usdp : Text
  pub susdp : Text

abbrev pub usdp_decoder : DecoderDefinition
usdp_decoder = record { role = "usdp-token"; version = "usdp-token-v1"; abi = erc20 }

abbrev pub susdp_decoder : DecoderDefinition
susdp_decoder = record { role = "susdp-savings"; version = "susdp-savings-v1"; abi = savings }

abbrev pub parallelizer_decoder : DecoderDefinition
parallelizer_decoder = record {
  role = "usdp-parallelizer";
  version = "parallelizer-v1";
  abi = parallelizer;
}

unfoldable pub add_adapters : List SavingsAddresses → Decoders → Decoders
unfolding set_decoder decoder_key
add_adapters [] decoders = decoders
add_adapters (adapter ∷ rest) decoders = add_adapters rest (
    set_decoder (decoder_key adapter.chain_id adapter.susdp) susdp_decoder
      (set_decoder (decoder_key adapter.chain_id adapter.usdp) usdp_decoder decoders))

unfoldable pub build_decoders : List SavingsAddresses → ℕ → Text → Decoders
unfolding add_adapters
build_decoders adapters hyperevm_chain_id parallelizer_address =
    set_decoder (decoder_key hyperevm_chain_id parallelizer_address) parallelizer_decoder
      (add_adapters adapters [])

pub record DecodedProtocolEvent : Type 0 where
  pub contract_role : String
  pub event_name : Text
  pub payload : JsValue
  pub decoder_version : String

abbrev pub version_or_unknown : Option DecoderDefinition → String
version_or_unknown none = "unknown-v1"
version_or_unknown (some definition) = definition.version

unfoldable pub decoder_version_for_address : Decoders → ℕ → Text → String
unfolding get_decoder decoder_key
decoder_version_for_address decoders chain_id address =
    version_or_unknown (get_decoder (decoder_key chain_id address) decoders)

-- `known` holds the topics of src/protocol/abis.ts in lower case.
unfoldable pub is_known_protocol_event_topic : List Text → Option Text → Bool
unfolding to_lower_case text_eq
is_known_protocol_event_topic known none = false
is_known_protocol_event_topic known (some []) = false
is_known_protocol_event_topic known (some (c ∷ cs)) = any (text_eq (to_lower_case (c ∷ cs))) known

abbrev pub first_topic : List Text → Option Text
first_topic [] = none
first_topic (topic ∷ _) = some topic

-- `decode_event_log` is viem's decoder: the name and the arguments, or none where it throws. For an
-- event without arguments it answers with the empty object, the default of `decoded.args ?? {}`.
module _ (decode_event_log : Abi → Text → List Text → Option (Text × JsValue)) where
  abbrev decoded_event : DecoderDefinition → Option (Text × JsValue) → Option DecodedProtocolEvent
  decoded_event decoder none = none
  decoded_event decoder (some (event_name, args)) = some (record {
    contract_role = decoder.role;
    event_name = event_name;
    payload = json_value args;
    decoder_version = decoder.version;
  })

  -- `!log.topics[0]` also holds of an empty text.
  abbrev decode_with : Option DecoderDefinition → Text → List Text → Option DecodedProtocolEvent
  decode_with none log_data topics = none
  decode_with (some decoder) log_data [] = none
  decode_with (some decoder) log_data ([] ∷ _) = none
  decode_with (some decoder) log_data ((c ∷ cs) ∷ topics) =
      decoded_event decoder (decode_event_log decoder.abi log_data ((c ∷ cs) ∷ topics))

  unfoldable pub decode_protocol_log :
      Decoders → ℕ → Text → Text → List Text → Option DecodedProtocolEvent
  unfolding get_decoder decoder_key json_value
  decode_protocol_log decoders chain_id address log_data topics =
      decode_with (get_decoder (decoder_key chain_id address) decoders) log_data topics
