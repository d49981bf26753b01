-- ===== src/Packet/RoundTrip/Numbers.antt =====
-- coap_packet.py: a number as the value of an option.
use coap_share_drive.Base.{ℕ, ◌^◌, ◌<◌, ◌≡◌, ◌≢◌, false, inr, arith}
use coap_share_drive.Bytes.Int.{
  big_endian, byte_length, to_bytes-byte_length, length-big_endian, byte_length-le_four,
}
use coap_share_drive.Packet.Value.{int}
use coap_share_drive.Packet.Options.{is_text_option, value_bytes}
use coap_share_drive.Packet.RoundTrip.OptionList.{Survives}

-- A number of at most four bytes survives behind a gap of one extended byte at most.
pub number-Survives :
    (gap delta n : ℕ)
    → gap < 269
    → is_text_option delta ≡ false
    → delta ≢ 1
    → n < 2 ^ 32
    → Survives gap delta (int n)
number-Survives gap delta n near kind other small = record {
  raw = big_endian (byte_length n) n;
  encodes = unfold value_bytes in to_bytes-byte_length n;
  kind = (kind, other);
  fits =
      inr (near, omega (arith, length-big_endian (byte_length n) n, byte_length-le_four n small));
}
