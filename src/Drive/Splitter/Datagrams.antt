-- ===== src/Drive/Splitter/Datagrams.antt =====
-- The responses of the splitter can be encoded, and their datagrams decode to them.
use coap_share_drive.Base.{
  ℕ, ◌-◌, ◌^◌, ◌<◌, ◌≤◌, ◌≡◌, refl, inl, inr, ◌==◌, Bool-cases, Option, some, arith, length,
}
use coap_share_drive.Base.Eq.{nat_eq}
use coap_share_drive.Base.Outcome.{ok}
use coap_share_drive.Base.Dict.{put, get}
use coap_share_drive.Bytes.{Bytes, Text}
use coap_share_drive.Bytes.Utf8
use coap_share_drive.Packet.{Packet, Address, get_size_code_based_on_option, copy}
use coap_share_drive.Packet.Value.{str, int}
use coap_share_drive.Packet.Block.{encode_option_block, encode_option_block-sum}
use coap_share_drive.Packet.Options.{is_text_option, value_bytes}
use coap_share_drive.Packet.Decode
use coap_share_drive.Packet.Decode.{JsonCodec, Options}
use coap_share_drive.Packet.Encode.{sorted_items, encode}
use coap_share_drive.Packet.RoundTrip.{IsSendable, arrived, decode-encode}
use coap_share_drive.Packet.RoundTrip.Numbers.{number-Survives}
use coap_share_drive.Packet.RoundTrip.OptionList.{Survives, Rising}
use coap_share_drive.Packet.RoundTrip.PayloadPart.{LoadsDumps}
use coap_share_drive.Templates.{addressed}
use coap_share_drive.Drive.DriveTemplates
use coap_share_drive.Drive.Splitter.{response}
use coap_share_drive.Drive.Splitter.Responses.{
  flag, flag-lt, Direction, download, upload, block_code, size_code, response-options_first,
  response-options_later,
}

name-Survives :
    (name : Text) (raw : Bytes)
    → Utf8.encode name ≡ ok raw
    → length raw ≤ 65804
    → Survives 8 8 (str name)
name-Survives name raw e short = record {
  raw = raw;
  encodes = unfold value_bytes in e;
  kind = unfold is_text_option in refl;
  fits = inl (omega arith, short);
}

-- The block option and the size are numbers behind gaps of at most one extended byte.
block-Survives :
    (way : Direction) (v : ℕ) → v < 2 ^ 32 → Survives (block_code way - 12) (block_code way) (int v)
unfolding is_text_option
block-Survives download v small =
    number-Survives 11 23 v (omega arith) refl (λ h. omega arith) small
block-Survives upload v small = number-Survives 15 27 v (omega arith) refl (λ h. omega arith) small

size-Survives :
    (way : Direction) (v : ℕ)
    → v < 2 ^ 32
    → Survives (size_code way - block_code way) (size_code way) (int v)
unfolding is_text_option
size-Survives download v small = number-Survives 5 28 v (omega arith) refl (λ h. omega arith) small
size-Survives upload v small = number-Survives 33 60 v (omega arith) refl (λ h. omega arith) small

lt-block_code : (way : Direction) → 12 < block_code way
lt-block_code download = omega arith
lt-block_code upload = omega arith

block_code-lt-size_code : (way : Direction) → block_code way < size_code way
block_code-lt-size_code download = omega arith
block_code-lt-size_code upload = omega arith

-- The options of a response, as they are written.
response-Rising :
    (way : Direction) (request : Packet) (name : Text) (raw : Bytes) (szx total index : ℕ)
    (payload : Bytes)
    → Utf8.encode name ≡ ok raw
    → length raw ≤ 65804
    → get_size_code_based_on_option request ≡ some (size_code way)
    → szx < 8
    → index ≤ total
    → total < 2 ^ 27
    → Rising 0 0
        (sorted_items (response request name (block_code way) szx total index payload).options)
response-Rising way request name raw szx total index payload e short code fits last few =
    elim (Bool-cases (index == 1)) [
      | inl x ↦ rw (response-options_first way request name szx total index payload code x) (
        omega arith,
        omega arith,
        name-Survives name raw e short,
        (
          omega arith,
          omega arith,
          format,
          (
            omega (arith, lt-block_code way),
            omega (arith, lt-block_code way),
            block,
            (
              omega (arith, block_code-lt-size_code way),
              omega (arith, block_code-lt-size_code way),
              size-Survives way total (omega arith),
              tt,
            ),
          ),
        ),
      )
      | inr x ↦ rw (response-options_later way request name szx total index payload code x) (
        omega arith,
        omega arith,
        name-Survives name raw e short,
        (
          omega arith,
          omega arith,
          format,
          (omega (arith, lt-block_code way), omega (arith, lt-block_code way), block, tt),
        ),
      )
    ]
  where
    format : Survives 4 12 (int 42)
    format =
        number-Survives 4 12 42 (omega arith) (unfold is_text_option in refl) (λ h. omega arith)
          (omega arith)

    block :
        Survives
          (block_code way - 12)
          (block_code way)
          (int (encode_option_block (index - 1) (flag index total) szx))
    block = block-Survives way _ (
        omega (
          arith,
          encode_option_block-sum (index - 1) (flag index total) szx (flag-lt index total) fits,
          flag-lt index total,
        ))

-- The format of the payload is that of bytes.
response-format :
    (way : Direction) (request : Packet) (name : Text) (szx total index : ℕ) (payload : Bytes)
    → get_size_code_based_on_option request ≡ some (size_code way)
    → get 12 (response request name (block_code way) szx total index payload).options
      ≡ some (int 42)
unfolding response put get DriveTemplates.value_with DriveTemplates.coap_packet addressed copy
response-format download request name szx total index payload code =
    elim (Bool-cases (index == 1)) [ inl x ↦ rw (code, x) refl | inr x ↦ rw (code, x) refl ]
response-format upload request name szx total index payload code = elim (Bool-cases (index == 1)) [
  | inl x ↦ rw (code, x) refl
  | inr x ↦ rw (code, x) refl
]

-- For a request with BLOCK1 or BLOCK2 and a token of fewer than 16 bytes, a file name whose UTF-8 form has at
-- most 65804 bytes and fewer than 2 ^ 27 blocks: each response can be encoded, and its datagram
-- decodes to the packet that `response-IsBlockOf` is about.
pub response-arrives :
    (json : JsonCodec) (way : Direction) (request : Packet) (name : Text) (raw : Bytes)
    (szx total index : ℕ) (payload : Bytes) (address : Option Address)
    → LoadsDumps json
    → Utf8.encode name ≡ ok raw
    → length raw ≤ 65804
    → length request.token < 16
    → get_size_code_based_on_option request ≡ some (size_code way)
    → szx < 8
    → index ≤ total
    → total < 2 ^ 27
    → (datagram : Bytes) × (sent : Packet) × (encode json
          (response request name (block_code way) szx total index payload)
        ≡ ok (datagram, sent))
      × (Decode.decode json datagram address
          ≡ ok (arrived (response request name (block_code way) szx total index payload) address))
response-arrives json way request name raw szx total index payload address law e short token code
      fits last few =
    decode-encode json (response request name (block_code way) szx total index payload) address law
      sendable
  where
    sendable : IsSendable json (response request name (block_code way) szx total index payload)
    sendable =
        unfold response DriveTemplates.value_with DriveTemplates.coap_packet addressed copy put
          get in
        (record {
          version_fits = omega arith;
          type_fits = omega arith;
          token_fits = token;
          code_fits = omega arith;
          id_fits = omega arith;
          rising =
              response-Rising way request name raw szx total index payload e short code fits last
                few;
          payload_fits =
              rw (response-format way request name szx total index payload code) (refl, refl);
          not_encoded = refl;
        })
