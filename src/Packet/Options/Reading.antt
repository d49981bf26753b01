-- ===== src/Packet/Options/Reading.antt =====
-- `read_option` on the header of the RFC, and on what `encode_option` writes.
use coap_share_drive.Base.{
  ℕ, ◌+◌, ◌-◌, ◌*◌, ◌/◌, ◌%◌, ◌≤◌, ◌<◌, ◌≡◌, refl, subst, ltb, if◌then◌else◌, ◌++◌, arith, length,
  take, drop, take-append, drop-append,
}
use coap_share_drive.Base.Outcome.{ok}
use coap_share_drive.Bytes.{Bytes}
use coap_share_drive.Bytes.Int.{big_endian, from_bytes, from_bytes-big_endian}
use coap_share_drive.Packet.Options.{extend_delta, extend_length, read_option}
use coap_share_drive.Packet.Options.Format.{nibble, extension}

-- Two bytes in front of a list, read as a number and dropped.
two_taken :
    (n : ℕ) (rest : Bytes)
    → n < 65536
    → (from_bytes (take 2 (big_endian 2 n ++ rest)) ≡ n) × (drop 2 (big_endian 2 n ++ rest) ≡ rest)
two_taken n rest h = (
  unfold big_endian in subst (λ bs. from_bytes bs ≡ n) refl (from_bytes-big_endian 2 n h),
  unfold big_endian in refl,
)

-- What `decode` makes of the delta that a header announces: right below 269, and 255 less from there.
abbrev pub delta_read : ℕ → ℕ
delta_read delta = if ltb delta 269 then delta else delta - 255

extend_delta-extension :
    (delta : ℕ) (rest : Bytes)
    → delta ≤ 65804
    → extend_delta (nibble delta) (extension delta ++ rest) ≡ ok (delta_read delta, rest)
unfolding extend_delta nibble extension
extend_delta-extension delta rest h = ground (arith, two_taken (delta - 269) rest)

extend_length-extension :
    (len : ℕ) (rest : Bytes)
    → len ≤ 65804
    → extend_length (nibble len) (extension len ++ rest) ≡ ok (len, rest)
unfolding extend_length nibble extension
extend_length-extension len rest h = ground (arith, two_taken (len - 269) rest)

pub nibble-lt : (n : ℕ) → nibble n < 15
unfolding nibble
nibble-lt n = ground arith

-- Reading back the header of the RFC with a value behind it gives the value and what follows, and
-- the delta if that is below 269; a delta from 269 on comes back 255 too small.
pub read_option-rfc_header :
    (delta : ℕ) (value rest : Bytes)
    → delta ≤ 65804
    → length value ≤ 65804
    → read_option
        (nibble delta * 16 + nibble (length value))
        (extension delta ++ (extension (length value) ++ (value ++ rest)))
      ≡ ok (record { delta = delta_read delta; raw = value; rest = rest })
unfolding read_option
read_option-rfc_header delta value rest h k =
    let upper : (nibble delta * 16 + nibble (length value)) / 16 % 16 ≡ nibble delta =
      omega (arith, nibble-lt delta, nibble-lt (length value)) in
    let lower : (nibble delta * 16 + nibble (length value)) % 16 ≡ nibble (length value) =
      omega (arith, nibble-lt delta, nibble-lt (length value)) in
    rw (
      upper,
      lower,
      extend_delta-extension delta (extension (length value) ++ (value ++ rest)) h,
      extend_length-extension (length value) (value ++ rest) k,
      take-append value rest,
      drop-append value rest,
    )
