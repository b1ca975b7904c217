-- ===== src/Decoder/Addresses.antt =====
-- The decoder of an address does not depend on the case in which the address is written.
use parallel_usdp_hyperevm_i.Prelude.{
  ℕ, true, ◌≡◌, List, Option, some, [], ◌∷◌, none, subst, eq_of_some_eq,
}
use parallel_usdp_hyperevm_i.Prelude.Text.{Text, to_lower_case, to_lower_case_idem}
use parallel_usdp_hyperevm_i.Decoder.Payload.{JsValue, is_json, json_value-is_json}
use parallel_usdp_hyperevm_i.Decoder.{
  DecoderDefinition, decoded_event, decode_with, Abi, Decoders, DecodedProtocolEvent,
  decode_protocol_log,
}

decoded_event-is_json :
    (decode_event_log : Abi → Text → List Text → Option (Text × JsValue))
    (decoder : DecoderDefinition) (decoded : Option (Text × JsValue)) (event : DecodedProtocolEvent)
    → decoded_event decode_event_log decoder decoded ≡ some event
    → is_json event.payload ≡ true
decoded_event-is_json decode_event_log decoder none event h = cc
decoded_event-is_json decode_event_log decoder (some (event_name, args)) event h =
    subst (λ (e : DecodedProtocolEvent). is_json e.payload ≡ true) (eq_of_some_eq h)
      (json_value-is_json args)

decode_with-is_json :
    (decode_event_log : Abi → Text → List Text → Option (Text × JsValue))
    (decoder : Option DecoderDefinition) (log_data : Text) (topics : List Text)
    (event : DecodedProtocolEvent)
    → decode_with decode_event_log decoder log_data topics ≡ some event
    → is_json event.payload ≡ true
decode_with-is_json decode_event_log none log_data topics event h = cc
decode_with-is_json decode_event_log (some decoder) log_data [] event h = cc
decode_with-is_json decode_event_log (some decoder) log_data ([] ∷ rest) event h = cc
decode_with-is_json decode_event_log (some decoder) log_data ((c ∷ cs) ∷ rest) event h =
    decoded_event-is_json decode_event_log decoder _ event h

module _ (decode_event_log : Abi → Text → List Text → Option (Text × JsValue)) (decoders : Decoders)
    (chain_id : ℕ) (log_data : Text) (topics : List Text) where
  -- A log decodes alike for every spelling of its contract's address.
  pub decode_protocol_log-to_lower_case :
      (address : Text)
      → decode_protocol_log decode_event_log decoders chain_id
          (to_lower_case address)
          log_data
          topics
        ≡ decode_protocol_log decode_event_log decoders chain_id address log_data topics
  unfolding decode_protocol_log
  decode_protocol_log-to_lower_case address = rw (to_lower_case_idem address)

  -- The payload of a decoded event can be stored as JSON: it holds no `bigint` at any depth.
  pub decode_protocol_log-is_json :
      (address : Text) (event : DecodedProtocolEvent)
      → decode_protocol_log decode_event_log decoders chain_id address log_data topics ≡ some event
      → is_json event.payload ≡ true
  unfolding decode_protocol_log
  decode_protocol_log-is_json address event h =
      decode_with-is_json decode_event_log _ log_data topics event h
