-- ===== src/Packet/Options.antt =====
-- coap_packet.py, _encode_option and _decode_option, and one round of the option loop of `decode`.
pub mod Format
pub mod Reading
use coap_share_drive.Base.{
  ℕ, ◌+◌, ◌-◌, ◌*◌, ◌/◌, ◌%◌, ◌^◌, bit_or, Bool, true, ◌||◌, ◌&&◌, ltb, leb, ◌==◌, if◌then◌else◌,
  List, [], ◌∷◌, ◌++◌, length, take, drop,
}
use coap_share_drive.Base.Outcome.{
  Outcome, ok, err, index_error, value_error, type_error, guard, ◌>>=◌, ◌>>◌,
}
use coap_share_drive.Bytes.{Bytes}
use coap_share_drive.Bytes.Int.{to_bytes, from_bytes, byte_length, bit_length}
use coap_share_drive.Bytes.Utf8
use coap_share_drive.Config.OptionDelta.{
  value, if_match, uri_host, etag, if_none_match, uri_port, location_path, uri_path, content_format,
  max_age, uri_query, accept, proxy_uri, proxy_scheme, size1, size2,
}
use coap_share_drive.Packet.Value.{OptionValue, str, int, bytes, nothing}

-- `bytes([x, y, …])`: a number above 255 is a ValueError.
unfoldable pub bytes_from : List ℕ → Outcome Bytes
bytes_from [] = ok []
bytes_from (x ∷ xs) = do guard (ltb x 256) value_error; rest ← bytes_from xs; ok (x ∷ rest)

-- The three encodings of a value. None has no length.
unfoldable pub value_bytes : OptionValue → Outcome Bytes
unfolding byte_length bit_length
value_bytes (str t) = Utf8.encode t
value_bytes (int n) = to_bytes n (byte_length n)
value_bytes (bytes b) = ok b
value_bytes nothing = err type_error

-- What is put in front of a value of `len` bytes: the branches of the source, in its order.
unfoldable pub option_header : ℕ → ℕ → Outcome Bytes
option_header delta len =
    if ltb delta 13
    then (if ltb len 13
        then bytes_from (bit_or (delta * 2 ^ 4) len ∷ [])
        else if ltb len 269
        then (do
          head ← bytes_from (bit_or (delta * 2 ^ 4) 13 ∷ [])
          more ← to_bytes (len - 13) 1
          ok (head ++ more))
        else if leb len 65804
        then (do
          head ← bytes_from (bit_or (delta * 2 ^ 4) 14 ∷ [])
          more ← to_bytes (len - 269) 2
          ok (head ++ more))
        else ok [])
    else if ltb delta 269
    then (if ltb len 13
        then bytes_from (bit_or (13 * 2 ^ 4) len ∷ (delta - 13) ∷ [])
        else if ltb len 269
        then (do
          head ← bytes_from (bit_or (13 * 2 ^ 4) 13 ∷ (delta - 13) ∷ [])
          more ← to_bytes (len - 13) 1
          ok (head ++ more))
        else if leb 269 delta && leb delta 65804
        then (do
          head ← bytes_from (bit_or (13 * 2 ^ 4) 13 ∷ (delta - 14) ∷ [])
          more ← to_bytes (len - 269) 2
          ok (head ++ more))
        else ok [])
    else if leb delta 65804
    then (if ltb len 13
        then (do
          head ← bytes_from (bit_or (14 * 2 ^ 4) len ∷ [])
          more ← to_bytes (delta - 269) 2
          ok (head ++ more))
        else if ltb len 269
        then (do
          head ← bytes_from (bit_or (14 * 2 ^ 4) len ∷ [])
          more ← to_bytes (delta - 269) 2
          rest ← to_bytes (len - 13) 1
          ok (head ++ more ++ rest))
        else if leb len 65804
        then (do
          head ← bytes_from (bit_or (14 * 2 ^ 4) len ∷ [])
          more ← to_bytes (delta - 269) 2
          rest ← to_bytes (len - 269) 2
          ok (head ++ more ++ rest))
        else ok [])
    else ok []

-- _encode_option
unfoldable pub encode_option : OptionValue → ℕ → Outcome Bytes
encode_option option_value delta_value = do
  option_bytes ← value_bytes option_value
  header ← option_header delta_value (length option_bytes)
  ok (header ++ option_bytes)

-- A member of an Enum is true wherever it stands as a condition.
abbrev member_truth : Bool
member_truth = true

unfoldable pub is_text_option : ℕ → Bool
is_text_option delta =
    delta == value uri_host
    || delta == value uri_path
    || delta == value uri_query
    || delta == value location_path
    || delta == value proxy_uri
    || delta == value proxy_scheme

-- The condition of the third branch, where BLOCK1 and BLOCK2 stand without a comparison.
unfoldable pub is_number_option : ℕ → Bool
is_number_option delta =
    delta == value etag
    || delta == value uri_port
    || delta == value max_age
    || delta == value accept
    || delta == value size1
    || member_truth
    || member_truth
    || delta == value size2

-- _decode_option
unfoldable pub decode_option : ℕ → Bytes → Outcome OptionValue
unfolding is_text_option is_number_option
decode_option delta option_value =
    if delta == value if_match
    then ok (bytes option_value)
    else if is_text_option delta
    then (do t ← Utf8.decode option_value; ok (str t))
    else if is_number_option delta
    then ok (int (from_bytes option_value))
    else if delta == value if_none_match
    then ok (bytes [])
    else if delta == value content_format
    then ok (int (from_bytes option_value))
    else ok nothing

-- The extended delta: the bytes behind the option byte, what the delta becomes, what follows.
unfoldable pub extend_delta : ℕ → Bytes → Outcome (ℕ × Bytes)
extend_delta delta tail =
    if delta == 13
    then elim tail [ [] ↦ err index_error | x ∷ rest ↦ ok (delta + x, rest) ]
    else if delta == 14
    then ok (delta + from_bytes (take 2 tail), drop 2 tail)
    else ok (delta, tail)

-- The extended length.
unfoldable pub extend_length : ℕ → Bytes → Outcome (ℕ × Bytes)
extend_length len tail =
    if len == 13
    then elim tail [ [] ↦ err index_error | x ∷ rest ↦ ok (len + x, rest) ]
    else if len == 14
    then ok (from_bytes (take 2 tail) + 269, drop 2 tail)
    else ok (len, tail)

pub record RawOption : Type 0 where
  pub delta : ℕ
  pub raw : Bytes
  pub rest : Bytes

-- One option from its first byte and the bytes behind it: delta, value and what follows. The
-- source moves an index over the packet; here the bytes from that index on are passed.
unfoldable pub read_option : ℕ → Bytes → Outcome RawOption
read_option option_byte tail = do
  (delta, after_delta) ← extend_delta (option_byte / 2 ^ 4 % 2 ^ 4) tail
  (len, after_length) ← extend_length (option_byte % 2 ^ 4) after_delta
  ok (record { delta = delta; raw = take len after_length; rest = drop len after_length })
