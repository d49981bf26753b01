-- ===== src/Packet/RoundTrip.antt =====
-- `decode` after `encode` gives the packet back.
pub mod OptionList
pub mod PayloadPart
pub mod Numbers
use coap_share_drive.Base.{
  ℕ, zero, suc, ◌+◌, ◌*◌, ◌/◌, ◌%◌, ◌^◌, ◌≤◌, ◌<◌, bit_or, ◌≡◌, refl, ap, ◌∙◌, false, true, Option,
  none, some, [], ◌∷◌, ◌++◌, arith, length, length-append, append_assoc, take, drop, take-append,
  drop-append,
}
use coap_share_drive.Base.Outcome.{ok, ◌>>=◌}
use coap_share_drive.Bytes.{Bytes}
use coap_share_drive.Bytes.Bits.{bit_or-shift}
use coap_share_drive.Packet.{Packet, Address}
use coap_share_drive.Packet.Value.{Payload, bytes, or_no_bytes}
use coap_share_drive.Packet.Options.{bytes_from}
use coap_share_drive.Packet.Decode.{
  JsonCodec, Options, decode_options, payload_in_format, raw_payload, decode_payload, decode_body,
  decode,
}
use coap_share_drive.Packet.Encode.{
  sorted_items, encode_options, encode_header, encode_payload, encode,
}
use OptionList.{Rising, encode_options-back}
use PayloadPart.{LoadsDumps, PayloadFits, format_of, payload_back, get-sorted_items}

-- A packet whose fields have the widths of the protocol and whose options and payload survive.
pub record IsSendable (json : JsonCodec) (p : Packet) : Type 0 where
  pub version_fits : p.version < 4
  pub type_fits : p.message_type < 4
  pub token_fits : length p.token < 16
  pub code_fits : p.code < 256
  pub id_fits : p.message_id < 65536
  pub rising : Rising 0 0 (sorted_items p.options)
  pub payload_fits : PayloadFits json (format_of p.options) p.payload
  pub not_encoded : p.encoded ≡ []

first_byte :
    (v t n : ℕ) → t < 4 → n < 16 → bit_or (bit_or (v * 2 ^ 6) (t * 2 ^ 4)) n ≡ (v * 4 + t) * 16 + n
first_byte v t n ht hn =
    let upper : v * 2 ^ 6 + t * 2 ^ 4 ≡ (v * 4 + t) * 2 ^ 4 = omega arith in
    rw (bit_or-shift 6 v (t * 2 ^ 4) (omega arith), upper, bit_or-shift 4 (v * 4 + t) n hn)

-- The header byte by byte.
abbrev pub header_of : Packet → Bytes
header_of p =
    ((p.version * 4 + p.message_type) * 16 + length p.token)
    ∷ p.code
    ∷ (p.message_id / 256)
    ∷ (p.message_id % 256)
    ∷ []

four_bytes :
    (a b c d : ℕ)
    → a < 256
    → b < 256
    → c < 256
    → d < 256
    → bytes_from (a ∷ b ∷ c ∷ d ∷ []) ≡ ok (a ∷ b ∷ c ∷ d ∷ [])
unfolding bytes_from
four_bytes a b c d ha hb hc hd = ground arith

pub encode_header-header_of :
    (json : JsonCodec) (p : Packet) → IsSendable json p → encode_header p ≡ ok (header_of p)
unfolding encode_header
encode_header-header_of json p s =
    let short : length p.token % 16 ≡ length p.token = omega (arith, s.token_fits) in
    let high : p.message_id / 256 % 256 ≡ p.message_id / 256 = omega (arith, s.id_fits) in
    rw (short, high, first_byte p.version p.message_type (length p.token) s.type_fits s.token_fits)
      (four_bytes _ _ _ _ (omega (arith, s.version_fits, s.type_fits, s.token_fits)) s.code_fits
        (omega (arith, s.id_fits)) (omega arith))

-- What follows the token, once the options and the payload have been read.
decode_body-back :
    (json : JsonCodec) (options : Options) (bs raw : Bytes) (back : Payload)
    → ((fuel : ℕ)
        → length bs ≤ fuel
        → decode_options fuel 0 [] (bs ++ (0xff ∷ raw)) ≡ ok (sorted_items options, 0xff ∷ raw))
    → payload_in_format json (format_of options) raw ≡ ok back
    → decode_body json (bs ++ (0xff ∷ raw)) ≡ ok (sorted_items options, back)
unfolding decode_body decode_payload
decode_body-back json options bs raw back loop e = rw (
  loop (length (bs ++ (0xff ∷ raw))) (omega (arith, length-append bs (0xff ∷ raw))),
  marked raw,
  get-sorted_items 12 options,
  e,
)
  where
    marked : (raw : Bytes) → raw_payload (0xff ∷ raw) ≡ raw
    marked [] = unfold raw_payload in refl
    marked (x ∷ rest) = unfold raw_payload in refl

-- The packet that arrives: the options in the order of their numbers, the sender's address.
abbrev pub arrived : Packet → Option Address → Packet
arrived p address = record p {
  options = sorted_items p.options;
  sender_ip_port = address;
  needs_internal_computation = false;
  encoded = [];
}

-- The decoder on the header, the token and a body.
decode-header_of :
    (json : JsonCodec) (p : Packet) (address : Option Address) (body : Bytes) (back : Payload)
    → IsSendable json p
    → decode_body json body ≡ ok (sorted_items p.options, back)
    → or_no_bytes back ≡ p.payload
    → decode json (header_of p ++ (p.token ++ body)) address ≡ ok (arrived p address)
unfolding decode
decode-header_of json p address body back s e b =
    let x : ℕ = (p.version * 4 + p.message_type) * 16 + length p.token in
    let len : x % 16 ≡ length p.token = omega (arith, s.token_fits) in
    let ver : x / 64 % 4 ≡ p.version = omega (arith, s.token_fits, s.type_fits, s.version_fits) in
    let typ : x / 16 % 4 ≡ p.message_type = omega (arith, s.token_fits, s.type_fits) in
    let mid : bit_or (p.message_id / 256 * 256) (p.message_id % 256) ≡ p.message_id =
      bit_or-shift 8 (p.message_id / 256) (p.message_id % 256) (omega arith) ∙ omega arith in
    rw (len, ver, typ, mid, take-append p.token body, drop-append p.token body, e, b)

-- The parts of an encoding, put together.
pub encode-parts :
    (json : JsonCodec) (p : Packet) (header bs raw : Bytes) (after : Payload)
    → p.encoded ≡ []
    → encode_header p ≡ ok header
    → encode_options 0 (sorted_items p.options) ≡ ok bs
    → encode_payload json p.options p.payload ≡ ok (raw, after)
    → let packet = header ++ (p.token ++ (bs ++ (0xff ∷ raw))) in
      encode json p ≡ ok (packet, record p { payload = after; encoded = packet })
unfolding encode
encode-parts json p header bs raw after n h o w = ground arith

-- With a json module whose `loads` undoes `dumps`: the encoding of a sendable packet succeeds, and
-- decoding its bytes gives every field back, the options in the order of their numbers.
pub decode-encode :
    (json : JsonCodec) (p : Packet) (address : Option Address)
    → LoadsDumps json
    → IsSendable json p
    → (packet : Bytes) × (q : Packet) × (encode json p ≡ ok (packet, q))
      × (decode json packet address ≡ ok (arrived p address))
decode-encode json p address law s =
    let (bs, e, loop) = encode_options-back (sorted_items p.options) 0 0 s.rising in
    let (raw, after, back, w, r, b) = payload_back json p.options p.payload law s.payload_fits in
    let body : Bytes = bs ++ (0xff ∷ raw) in
    let packet : Bytes = header_of p ++ (p.token ++ body) in
    (
      packet,
      record p { payload = after; encoded = packet },
      encode-parts json p (header_of p) bs raw after s.not_encoded
          (encode_header-header_of json p s) e w,
      decode-header_of json p address body back s
          (decode_body-back json p.options bs raw back (λ fuel l. loop fuel [] raw l tt) r) b,
    )
