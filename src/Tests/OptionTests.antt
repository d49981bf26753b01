-- ===== src/Tests/OptionTests.antt =====
-- The theorems on option headers and on codes, tokens and blocks at concrete values.
use coap_share_drive.Base.{◌≡◌, ◌+◌, ◌*◌, ◌++◌, refl, inl, [], ◌∷◌, arith}
use coap_share_drive.Base.Outcome.{ok, unicode_error}
use coap_share_drive.Bytes.Int.{big_endian, from_bytes, from_bytes-big_endian}
use coap_share_drive.Bytes.Utf8
use coap_share_drive.Bytes.Utf8.Total.{decode-err}
use coap_share_drive.Packet.Options.{option_header, read_option}
use coap_share_drive.Packet.Options.Format.{
  nibble, extension, rfc_header, option_header-rfc_header, option_header-wrong_nibble,
}
use coap_share_drive.Packet.Options.Reading.{delta_read, read_option-rfc_header}

option_header-rfc_header_example : option_header 12 300 ≡ ok (rfc_header 12 300)
option_header-rfc_header_example = option_header-rfc_header 12 300 (inl (omega arith, omega arith))

option_header-wrong_nibble_example :
    (option_header 300 14 ≡ ok (238 ∷ (big_endian 2 31 ++ 1 ∷ [])))
    × (rfc_header 300 14 ≡ 237 ∷ (big_endian 2 31 ++ 1 ∷ []))
option_header-wrong_nibble_example = option_header-wrong_nibble 300 (omega arith) (omega arith)

read_option-rfc_header_example :
    read_option (nibble 300 * 16 + nibble 2) (extension 300 ++ (extension 2 ++ (5 ∷ 6 ∷ 7 ∷ [])))
    ≡ ok (record { delta = delta_read 300; raw = 5 ∷ 6 ∷ []; rest = 7 ∷ [] })
read_option-rfc_header_example =
    read_option-rfc_header 300 (5 ∷ 6 ∷ []) (7 ∷ []) (omega arith) (omega arith)

decode-err_example : unicode_error ≡ unicode_error
decode-err_example = decode-err (0xc3 ∷ 0x28 ∷ []) unicode_error (unfold Utf8.decode in refl)

from_bytes-big_endian_example : from_bytes (big_endian 2 1000) ≡ 1000
from_bytes-big_endian_example = from_bytes-big_endian 2 1000 (omega arith)
