-- ===== src/Bytes/Utf8.antt =====
-- str.encode('utf-8') and bytes.decode('utf-8'), strict: surrogates, overlong forms and cut or
-- stray bytes are errors.
pub mod RoundTrip
pub mod Total
use coap_share_drive.Base.{
  ℕ, zero, suc, ◌+◌, ◌-◌, ◌*◌, ◌/◌, ◌%◌, Bool, ◌&&◌, ◌||◌, List, [], ◌∷◌, ◌++◌, ltb, leb,
  if◌then◌else◌, length,
}
use coap_share_drive.Base.Outcome.{Outcome, ok, err, unicode_error, out_of_fuel, ◌>>=◌}

unfoldable pub is_surrogate : ℕ → Bool
is_surrogate c = leb 0xd800 c && ltb c 0xe000

unfoldable pub encode_char : ℕ → Outcome (List ℕ)
unfolding is_surrogate
encode_char c =
    if ltb c 0x80
    then ok (c ∷ [])
    else if ltb c 0x800
    then ok ((0xc0 + c / 64) ∷ (0x80 + c % 64) ∷ [])
    else if is_surrogate c
    then err unicode_error
    else if ltb c 0x10000
    then ok ((0xe0 + c / 4096) ∷ (0x80 + c / 64 % 64) ∷ (0x80 + c % 64) ∷ [])
    else if ltb c 0x110000
    then ok
        ((0xf0 + c / 262144) ∷ (0x80 + c / 4096 % 64) ∷ (0x80 + c / 64 % 64) ∷ (0x80 + c % 64) ∷ [])
    else err unicode_error

unfoldable pub encode : List ℕ → Outcome (List ℕ)
unfolding encode_char
encode [] = ok []
encode (c ∷ cs) = do b ← encode_char c; bs ← encode cs; ok (b ++ bs)

-- A continuation byte 10xxxxxx gives its six bits.
six_bits : List ℕ → Outcome (ℕ × List ℕ)
six_bits [] = err unicode_error
six_bits (b ∷ bs) = if leb 0x80 b && ltb b 0xc0 then ok (b - 0x80, bs) else err unicode_error

two_bytes : ℕ → List ℕ → Outcome (ℕ × List ℕ)
two_bytes b bs = do (x, bs₁) ← six_bits bs; ok ((b - 0xc0) * 64 + x, bs₁)

three_bytes : ℕ → List ℕ → Outcome (ℕ × List ℕ)
unfolding is_surrogate
three_bytes b bs = do
  (x, bs₁) ← six_bits bs
  (y, bs₂) ← six_bits bs₁
  let c = (b - 0xe0) * 4096 + x * 64 + y
  if ltb c 0x800 || is_surrogate c then err unicode_error else ok (c, bs₂)

four_bytes : ℕ → List ℕ → Outcome (ℕ × List ℕ)
four_bytes b bs = do
  (x, bs₁) ← six_bits bs
  (y, bs₂) ← six_bits bs₁
  (z, bs₃) ← six_bits bs₂
  let c = (b - 0xf0) * 262144 + x * 4096 + y * 64 + z
  if ltb c 0x10000 || leb 0x110000 c then err unicode_error else ok (c, bs₃)

-- One code point from the front, by its first byte.
decode_char : List ℕ → Outcome (ℕ × List ℕ)
decode_char [] = err unicode_error
decode_char (b ∷ bs) =
    if ltb b 0x80
    then ok (b, bs)
    else if ltb b 0xc2
    then err unicode_error
    else if ltb b 0xe0
    then two_bytes b bs
    else if ltb b 0xf0
    then three_bytes b bs
    else if ltb b 0xf8
    then four_bytes b bs
    else err unicode_error

decode_fuel : ℕ → List ℕ → Outcome (List ℕ)
decode_fuel fuel [] = ok []
decode_fuel zero (b ∷ bs) = err out_of_fuel
decode_fuel (suc fuel) (b ∷ bs) = do
  (c, rest) ← decode_char (b ∷ bs)
  cs ← decode_fuel fuel rest
  ok (c ∷ cs)

-- Each code point takes a byte at least, so as many rounds as bytes are enough.
unfoldable pub decode : List ℕ → Outcome (List ℕ)
unfolding decode_fuel decode_char two_bytes three_bytes four_bytes six_bits
decode bs = decode_fuel (length bs) bs
