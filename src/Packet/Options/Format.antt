-- ===== src/Packet/Options/Format.antt =====
-- The option header that RFC 7252, section 3.1, prescribes, and where `option_header` writes it.
use coap_share_drive.Base.{
  ℕ, ◌+◌, ◌-◌, ◌*◌, ◌≤◌, ◌<◌, ◌≡◌, ◌⊎◌, ltb, if◌then◌else◌, [], ◌∷◌, ◌++◌, arith, append-nil,
}
use coap_share_drive.Base.Outcome.{ok}
use coap_share_drive.Bytes.{Bytes}
use coap_share_drive.Bytes.Bits.{bit_or-shift}
use coap_share_drive.Bytes.Int.{to_bytes, big_endian}
use coap_share_drive.Packet.Options.{bytes_from, option_header}

-- The four bits that announce a delta or a length, and the bytes that extend them.
unfoldable pub nibble : ℕ → ℕ
nibble n = if ltb n 13 then n else if ltb n 269 then 13 else 14

unfoldable pub extension : ℕ → Bytes
extension n = if ltb n 13 then [] else if ltb n 269 then (n - 13) ∷ [] else big_endian 2 (n - 269)

abbrev pub rfc_header : ℕ → ℕ → Bytes
rfc_header delta len = (nibble delta * 16 + nibble len) ∷ (extension delta ++ extension len)

one_byte : (x : ℕ) → x < 256 → bytes_from (x ∷ []) ≡ ok (x ∷ [])
unfolding bytes_from
one_byte x h = ground arith

two_bytes : (x y : ℕ) → x < 256 → y < 256 → bytes_from (x ∷ y ∷ []) ≡ ok (x ∷ y ∷ [])
unfolding bytes_from
two_bytes x y h k = ground arith

to_one_byte : (n : ℕ) → n < 256 → to_bytes n 1 ≡ ok (n ∷ [])
unfolding to_bytes big_endian
to_one_byte n h = ground arith

to_two_bytes : (n : ℕ) → n < 65536 → to_bytes n 2 ≡ ok (big_endian 2 n)
unfolding to_bytes
to_two_bytes n h = ground arith

-- For a delta below 13 and a length up to 65804, and for a delta below 269 and a length below 269,
-- and for a delta up to 65804 and a length below 13, the encoder writes the header of the RFC.
pub option_header-rfc_header :
    (delta len : ℕ)
    → ((delta < 13) × (len ≤ 65804))
      ⊎ ((delta < 269) × (len < 269))
      ⊎ ((delta ≤ 65804) × (len < 13))
    → option_header delta len ≡ ok (rfc_header delta len)
unfolding option_header nibble extension
option_header-rfc_header delta len h = ground (
  arith,
  bit_or-shift 4 delta len,
  bit_or-shift 4 delta 13,
  bit_or-shift 4 delta 14,
  bit_or-shift 4 13 len,
  bit_or-shift 4 14 len,
  one_byte (delta * 16 + len),
  one_byte (delta * 16 + 13),
  one_byte (delta * 16 + 14),
  one_byte (224 + len),
  two_bytes (208 + len) (delta - 13),
  two_bytes 221 (delta - 13),
  to_one_byte (len - 13),
  to_two_bytes (len - 269),
  to_two_bytes (delta - 269),
  append-nil (big_endian 2 (delta - 269)),
)

-- A delta from 269 to 65804 before a value of 14 bytes announces an extended length of 269 or more
-- where the RFC announces 14.
pub option_header-wrong_nibble :
    (delta : ℕ)
    → 269 ≤ delta
    → delta ≤ 65804
    → (option_header delta 14 ≡ ok (238 ∷ (big_endian 2 (delta - 269) ++ 1 ∷ [])))
      × (rfc_header delta 14 ≡ 237 ∷ (big_endian 2 (delta - 269) ++ 1 ∷ []))
unfolding option_header nibble extension
option_header-wrong_nibble delta h k =
    (ground (arith, one_byte 238, to_one_byte 1, to_two_bytes (delta - 269)), ground arith)
