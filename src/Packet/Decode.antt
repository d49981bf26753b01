-- ===== src/Packet/Decode.antt =====
-- coap_packet.py, `decode`: bytes from the socket to a CoapPacket.
use coap_share_drive.Base.{
  ℕ, zero, suc, ◌*◌, ◌/◌, ◌%◌, ◌+◌, ◌^◌, bit_or, false, ◌==◌, if◌then◌else◌, Option, none, some, [],
  ◌∷◌, length, take, drop,
}
use coap_share_drive.Base.Eq.{nat_eq}
use coap_share_drive.Base.Outcome.{
  Outcome, ok, err, index_error, json_error, out_of_fuel, or_raise, ◌>>=◌,
}
use coap_share_drive.Base.Dict.{Dict, get, put}
use coap_share_drive.Bytes.{Bytes, Text}
use coap_share_drive.Bytes.Utf8
use coap_share_drive.Config.OptionDelta
use coap_share_drive.Config.ContentFormat
use coap_share_drive.Packet.{Packet, Address}
use coap_share_drive.Packet.Value.{
  OptionValue, Payload, bytes, str, doc, Doc, equals_int, or_no_bytes,
}
use coap_share_drive.Packet.Options.{read_option, decode_option}

-- Python's json module, on the documents of this program, which are objects from strings to strings.
-- `loads` takes bytes; none stands for bytes that are no such document. Other JSON values, which Python
-- reads as well, are outside the model: where one arrives, the model ends with the JSON error.
pub record JsonCodec : Type 0 where
  pub dumps : Doc → Text
  pub loads : Bytes → Option Doc

abbrev pub Options : Type 0
Options = Dict ℕ OptionValue

-- The option loop, up to the end of the packet or the byte 0xFF: the options and the bytes not
-- read. Each round takes a byte at least.
unfoldable pub decode_options : ℕ → ℕ → Options → Bytes → Outcome (Options × Bytes)
decode_options fuel prev options [] = ok (options, [])
decode_options zero prev options (b ∷ tail) =
    if b == 0xff then ok (options, b ∷ tail) else err out_of_fuel
decode_options (suc fuel) prev options (b ∷ tail) =
    let round = (do
      option ← read_option b tail
      let delta = option.delta + prev
      value ← decode_option delta option.raw
      decode_options fuel delta (put delta value options) option.rest) in
    if b == 0xff then ok (options, b ∷ tail) else round

-- The payload behind the byte 0xFF, if that is not the last one.
unfoldable pub raw_payload : Bytes → Bytes
raw_payload [] = []
raw_payload (b ∷ []) = []
raw_payload (b ∷ x ∷ rest) = if b == 0xff then x ∷ rest else []

-- What the content format makes of the payload; none where the option is missing.
unfoldable pub payload_in_format : JsonCodec → Option OptionValue → Bytes → Outcome Payload
payload_in_format json none raw = ok (bytes raw)
payload_in_format json (some format) raw =
    if equals_int format (ContentFormat.value ContentFormat.text_plain_utf8)
    then (do t ← Utf8.decode raw; ok (str t))
    else if equals_int format (ContentFormat.value ContentFormat.application_json)
    then (do d ← or_raise (json.loads raw) json_error; ok (doc d))
    else ok (bytes raw)

unfoldable pub decode_payload : JsonCodec → Options → Bytes → Outcome Payload
unfolding payload_in_format
decode_payload json options raw =
    payload_in_format json (get (OptionDelta.value OptionDelta.content_format) options) raw

-- The bytes behind the token: options, then payload.
unfoldable pub decode_body : JsonCodec → Bytes → Outcome (Options × Payload)
decode_body json body = do
  (options, rest) ← decode_options (length body) 0 [] body
  payload ← decode_payload json options (raw_payload rest)
  ok (options, payload)

unfoldable pub decode : JsonCodec → Bytes → Option Address → Outcome Packet
decode json (b₀ ∷ b₁ ∷ b₂ ∷ b₃ ∷ tail) address = do
  (options, payload) ← decode_body json (drop (b₀ % 2 ^ 4) tail)
  ok (record {
    version = b₀ / 2 ^ 6 % 2 ^ 2;
    message_type = b₀ / 2 ^ 4 % 2 ^ 2;
    token = take (b₀ % 2 ^ 4) tail;
    code = b₁;
    message_id = bit_or (b₂ * 2 ^ 8) b₃;
    options = options;
    payload = or_no_bytes payload;
    sender_ip_port = address;
    needs_internal_computation = false;
    encoded = [];
  })
decode json _ address = err index_error
