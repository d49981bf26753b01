-- ===== src/Tests/PacketTests.antt =====
-- The packet's theorems at concrete packets.
use coap_share_drive.Base.{◌<◌, All, ◌↔◌, ◌≡◌, refl, inl, true, false, none, [], ◌∷◌, arith}
use coap_share_drive.Base.Outcome.{ok, err, index_error, unicode_error}
use coap_share_drive.Base.Dict.{get}
use coap_share_drive.Bytes.{Bytes}
use coap_share_drive.Bytes.Utf8
use coap_share_drive.Bytes.Utf8.RoundTrip.{decode-encode_text}
use coap_share_drive.Bytes.Int.{big_endian, to_bytes, byte_length, bit_length}
use coap_share_drive.Packet.{Packet}
use coap_share_drive.Packet.Value.{str, int, doc, Doc}
use coap_share_drive.Packet.Options.{
  is_text_option, extend_delta, extend_length, value_bytes, decode_option, read_option,
}
use coap_share_drive.Packet.Decode
use coap_share_drive.Packet.Decode.{decode_body, decode_options}
use coap_share_drive.Packet.Encode.{encode, sorted_items, insert_sorted}
use coap_share_drive.Packet.RoundTrip.{IsSendable, arrived, decode-encode}
use coap_share_drive.Packet.RoundTrip.OptionList.{Survives}
use coap_share_drive.Packet.Errors.{IsDecodeError, decode_errors, decode-short}
use coap_share_drive.Packet.Block.{
  block_of, encode_option_block, block_of-encode_option_block, encode_option_block-block_of,
}
use coap_share_drive.Packet.Format.{
  option_keys, IsCode, IsOptionNumber, verify_format, verify_format_lem,
}
use coap_share_drive.Tests.Json.{codec, codec-LoadsDumps, print, marked}

abbrev document_bytes : Bytes
document_bytes = 1 ∷ 110 ∷ 2 ∷ 226 ∷ 130 ∷ 172 ∷ 0 ∷ 0 ∷ []

abbrev note : Doc
note = (110 ∷ [], 8364 ∷ []) ∷ []

-- A POST with two options, out of order, and a JSON document.
abbrev pub change_request : Packet
change_request = record {
  version = 1;
  message_type = 0;
  token = 7 ∷ [];
  code = 2;
  message_id = 515;
  options = (12, int 50) ∷ (8, str (97 ∷ 233 ∷ [])) ∷ [];
  payload = doc note;
  sender_ip_port = none;
  needs_internal_computation = false;
  encoded = [];
}

location-Survives : Survives 8 8 (str (97 ∷ 233 ∷ []))
unfolding is_text_option
location-Survives = record {
  raw = 97 ∷ 195 ∷ 169 ∷ [];
  encodes = unfold value_bytes Utf8.encode Utf8.encode_char in refl;
  kind = refl;
  fits = inl (omega arith, omega arith);
}

format-Survives : Survives 4 12 (int 50)
unfolding is_text_option
format-Survives = record {
  raw = 50 ∷ [];
  encodes = unfold value_bytes to_bytes byte_length bit_length big_endian in refl;
  kind = (refl, λ e. omega arith);
  fits = inl (omega arith, omega arith);
}

change_request-IsSendable : IsSendable codec change_request
unfolding sorted_items insert_sorted get
change_request-IsSendable = record {
  version_fits = omega arith;
  type_fits = omega arith;
  token_fits = omega arith;
  code_fits = omega arith;
  id_fits = omega arith;
  rising = (
    omega arith,
    omega arith,
    location-Survives,
    (omega arith, omega arith, format-Survives, tt),
  );
  payload_fits = ((refl, refl), refl, (document_bytes, encoded_document));
  not_encoded = refl;
}
  where
    encoded_document : Utf8.encode (codec.dumps note) ≡ ok document_bytes
    encoded_document = unfold codec print marked Utf8.encode Utf8.encode_char in refl

-- The two options arrive sorted, the text and the document as they were.
decode-encode_example :
    (packet : Bytes) × (q : Packet) × (encode codec change_request ≡ ok (packet, q))
    × (Decode.decode codec packet none ≡ ok (arrived change_request none))
decode-encode_example =
    decode-encode codec change_request none codec-LoadsDumps change_request-IsSendable

-- A datagram with an option whose two bytes are no UTF-8.
abbrev broken_text : Bytes
broken_text = 0x40 ∷ 1 ∷ 0 ∷ 1 ∷ 0xb2 ∷ 0xc3 ∷ 0x28 ∷ []

broken_text-err : Decode.decode codec broken_text none ≡ err unicode_error
unfolding Decode.decode decode_body decode_options read_option decode_option Utf8.decode
    extend_delta extend_length
broken_text-err = refl

decode_errors_example : IsDecodeError unicode_error
decode_errors_example = decode_errors codec broken_text none unicode_error broken_text-err

decode-short_example : Decode.decode codec (0x40 ∷ 1 ∷ []) none ≡ err index_error
decode-short_example = decode-short codec (0x40 ∷ 1 ∷ []) none (omega arith)

block_of-encode_option_block_example :
    block_of (int (encode_option_block 5 1 6))
    ≡ ok (record { num = 5; m = 1; szx = 6; block_size = 1024 })
block_of-encode_option_block_example =
    block_of-encode_option_block 5 1 6 (omega arith) (omega arith) (omega arith)

encode_option_block-block_of_example : encode_option_block 5 1 6 ≡ 94
encode_option_block-block_of_example =
    encode_option_block-block_of 94 (record { num = 5; m = 1; szx = 6; block_size = 1024 })
      (unfold block_of in refl)

verify_format_lem_example : (verify_format change_request ≡ true) ↔ (
    (change_request.version ≡ 1)
    × (change_request.message_type < 4)
    × IsCode change_request.code
    × All IsOptionNumber (option_keys change_request))
verify_format_lem_example = verify_format_lem change_request

decode-encode_text_example : Utf8.decode (226 ∷ 130 ∷ 172 ∷ []) ≡ ok (8364 ∷ [])
decode-encode_text_example =
    decode-encode_text (8364 ∷ []) (226 ∷ 130 ∷ 172 ∷ [])
      (unfold Utf8.encode Utf8.encode_char in refl)
