-- ===== src/Packet/Encode.antt =====
-- coap_packet.py, `encode`: a CoapPacket to bytes. It stores the bytes in the packet and returns
-- them at once in a later call.
use coap_share_drive.Base.{
  ℕ, ◌-◌, ◌*◌, ◌/◌, ◌%◌, ◌^◌, bit_or, leb, if◌then◌else◌, Option, none, some, [], ◌∷◌, ◌++◌, length,
}
use coap_share_drive.Base.Eq.{nat_eq}
use coap_share_drive.Base.Outcome.{Outcome, ok, err, attribute_error, type_error, ◌>>=◌}
use coap_share_drive.Base.Dict.{get}
use coap_share_drive.Bytes.{Bytes}
use coap_share_drive.Bytes.Utf8
use coap_share_drive.Config.OptionDelta
use coap_share_drive.Config.ContentFormat
use coap_share_drive.Packet.{Packet}
use coap_share_drive.Packet.Value.{
  OptionValue, Payload, bytes, str, doc, equals_int, payload_truth, is_empty,
}
use coap_share_drive.Packet.Options.{bytes_from, encode_option}
use coap_share_drive.Packet.Decode.{JsonCodec, Options}

-- sorted(self.options.items()): the keys differ, so the values are never compared.
unfoldable pub insert_sorted : ℕ × OptionValue → Options → Options
insert_sorted e [] = e ∷ []
insert_sorted (k, v) ((j, w) ∷ l) =
    if leb k j then (k, v) ∷ (j, w) ∷ l else (j, w) ∷ insert_sorted (k, v) l

unfoldable pub sorted_items : Options → Options
unfolding insert_sorted
sorted_items [] = []
sorted_items (e ∷ l) = insert_sorted e (sorted_items l)

unfoldable pub encode_options : ℕ → Options → Outcome Bytes
encode_options prev [] = ok []
encode_options prev ((delta, value) ∷ items) = do
  this ← encode_option value (delta - prev)
  rest ← encode_options delta items
  ok (this ++ rest)

-- The four bytes of the header; a field that is too wide is a ValueError of `bytes`.
unfoldable pub encode_header : Packet → Outcome Bytes
encode_header p = bytes_from (
    bit_or (bit_or (p.version * 2 ^ 6) (p.message_type * 2 ^ 4)) (length p.token % 2 ^ 4)
    ∷ p.code
    ∷ (p.message_id / 2 ^ 8 % 2 ^ 8)
    ∷ (p.message_id % 2 ^ 8)
    ∷ [])

-- `self.payload.encode(encoding="utf-8")`: bytes and dict have no such method.
abbrev encode_text : Payload → Outcome Bytes
encode_text (str t) = Utf8.encode t
encode_text (bytes b) = err attribute_error
encode_text (doc d) = err attribute_error

-- `bytes(self.payload)`: a str wants an encoding, and the keys of a dict are no numbers.
abbrev plain_bytes : Payload → Outcome Bytes
plain_bytes (bytes b) = ok b
plain_bytes (str t) = err type_error
plain_bytes (doc d) = err type_error

-- `if not isinstance(self.payload, str): self.payload = json.dumps(self.payload)`
abbrev as_json_text : JsonCodec → Payload → Outcome Payload
as_json_text json (str t) = ok (str t)
as_json_text json (doc d) = ok (str (json.dumps d))
as_json_text json (bytes b) = err type_error

-- The payload's bytes in a content format, and the payload that the attribute holds afterwards.
unfoldable pub bytes_in_format :
    JsonCodec → Option OptionValue → Payload → Outcome (Bytes × Payload)
bytes_in_format json none payload = do b ← plain_bytes payload; ok (b, payload)
bytes_in_format json (some format) payload =
    if equals_int format (ContentFormat.value ContentFormat.text_plain_utf8)
    then (do b ← encode_text payload; ok (b, payload))
    else if equals_int format (ContentFormat.value ContentFormat.application_json)
    then (do text ← as_json_text json payload; b ← encode_text text; ok (b, text))
    else (do b ← plain_bytes payload; ok (b, payload))

unfoldable pub encode_payload : JsonCodec → Options → Payload → Outcome (Bytes × Payload)
unfolding bytes_in_format
encode_payload json options payload =
    if payload_truth payload
    then bytes_in_format json (get (OptionDelta.value OptionDelta.content_format) options) payload
    else ok ([], payload)

-- The bytes, and the packet with its attributes payload and encoded as they are afterwards.
unfoldable pub encode : JsonCodec → Packet → Outcome (Bytes × Packet)
encode json p =
    if is_empty p.encoded
    then (do
      header ← encode_header p
      options ← encode_options 0 (sorted_items p.options)
      (payload_bytes, payload) ← encode_payload json p.options p.payload
      let packet = header ++ (p.token ++ (options ++ (0xff ∷ payload_bytes)))
      ok (packet, record p { payload = payload; encoded = packet }))
    else ok (p.encoded, p)
