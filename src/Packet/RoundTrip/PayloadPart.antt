-- ===== src/Packet/RoundTrip/PayloadPart.antt =====
-- The payload, and the sorting of the options, on the way through `encode` and `decode`.
use coap_share_drive.Base.{
  ℕ, ◌≡◌, refl, true, false, ◌==◌, if◌then◌else◌, Option, none, some, [], ◌∷◌, arith,
}
use coap_share_drive.Base.Eq.{nat_eq}
use coap_share_drive.Base.Outcome.{ok}
use coap_share_drive.Base.Dict.{get}
use coap_share_drive.Bytes.{Bytes}
use coap_share_drive.Bytes.Utf8
use coap_share_drive.Bytes.Utf8.RoundTrip.{decode-encode_text}
use coap_share_drive.Config.OptionDelta
use coap_share_drive.Packet.Value.{
  OptionValue, Payload, Doc, bytes, str, doc, equals_int, is_empty, or_no_bytes,
}
use coap_share_drive.Packet.Decode.{JsonCodec, Options, payload_in_format}
use coap_share_drive.Packet.Encode.{insert_sorted, sorted_items, encode_payload}

abbrev pub format_of : Options → Option OptionValue
format_of options = get (OptionDelta.value OptionDelta.content_format) options

-- What the program relies on of `json`: `loads` of the UTF-8 bytes of `dumps` is the document.
abbrev pub LoadsDumps : JsonCodec → Type 0
LoadsDumps json =
    (d : Doc) (raw : Bytes) → Utf8.encode (json.dumps d) ≡ ok raw → json.loads raw ≡ some d

-- The content format is missing or asks for no conversion.
abbrev pub IsPlain : Option OptionValue → Type 0
IsPlain none = Unit {0}
IsPlain (some f) = (equals_int f 0 ≡ false) × (equals_int f 50 ≡ false)

abbrev pub IsTextFormat : Option OptionValue → Type 0
IsTextFormat none = ⊥
IsTextFormat (some f) = equals_int f 0 ≡ true

abbrev pub IsJsonFormat : Option OptionValue → Type 0
IsJsonFormat none = ⊥
IsJsonFormat (some f) = (equals_int f 0 ≡ false) × (equals_int f 50 ≡ true)

-- A payload of the type that its content format is read with: bytes with no text format, a str
-- that is not empty with the text format, a document that is not empty with the JSON format; text
-- has a UTF-8 form.
abbrev pub PayloadFits : JsonCodec → Option OptionValue → Payload → Type 0
PayloadFits json format (bytes b) = IsPlain format
PayloadFits json format (str t) =
    IsTextFormat format × (is_empty t ≡ false) × ((raw : Bytes) × (Utf8.encode t ≡ ok raw))
PayloadFits json format (doc d) =
    IsJsonFormat format
    × (is_empty d ≡ false)
    × ((raw : Bytes) × (Utf8.encode (json.dumps d) ≡ ok raw))

-- The encoder writes such a payload, and the decoder reads it back from the same format.
pub payload_back :
    (json : JsonCodec) (options : Options) (payload : Payload)
    → LoadsDumps json
    → PayloadFits json (format_of options) payload
    → (raw : Bytes) × (after : Payload) × (back : Payload) × (encode_payload json options payload
        ≡ ok (raw, after))
      × (payload_in_format json (format_of options) raw ≡ ok back)
      × (or_no_bytes back ≡ payload)
unfolding encode_payload payload_in_format
payload_back json options (bytes []) law h = ([], bytes [], bytes [], refl, ground arith, refl)
payload_back json options (bytes (x ∷ b)) law h =
    (x ∷ b, bytes (x ∷ b), bytes (x ∷ b), ground arith, ground arith, refl)
payload_back json options (str []) law h = absurd (ground arith)
payload_back json options (str (c ∷ t)) law (f, n, (raw, e)) = (
  raw,
  str (c ∷ t),
  str (c ∷ t),
  ground arith,
  ground (arith, decode-encode_text (c ∷ t) raw e),
  refl,
)
payload_back json options (doc []) law h = absurd (ground arith)
payload_back json options (doc (x ∷ d)) law (f, n, (raw, e)) = (
  raw,
  str (json.dumps (x ∷ d)),
  doc (x ∷ d),
  ground arith,
  ground (arith, law (x ∷ d) raw e),
  refl,
)

get-insert_sorted :
    (q k : ℕ) (v : OptionValue) (l : Options)
    → get q (insert_sorted (k, v) l) ≡ (if k == q then some v else get q l)
unfolding get insert_sorted
get-insert_sorted q k v [] = refl
get-insert_sorted q k v ((j, w) ∷ l) = ground (arith, get-insert_sorted q k v l)

-- Sorting the items of a dict changes no lookup.
pub get-sorted_items : (q : ℕ) (l : Options) → get q (sorted_items l) ≡ get q l
unfolding sorted_items
get-sorted_items q [] = refl
get-sorted_items q ((k, v) ∷ l) =
    rw (get-insert_sorted q k v (sorted_items l), get-sorted_items q l) (unfold get in refl)
