-- ===== src/Bytes/Utf8/RoundTrip.antt =====
-- Text comes back from its UTF-8 form.
use coap_share_drive.Base.{
  ℕ, zero, suc, ◌+◌, ◌/◌, ◌%◌, ◌≤◌, ◌<◌, ◌≡◌, ap, ◌∙◌, inl, inr, true, false, List, [], ◌∷◌, ◌++◌,
  arith, ltb, leb, length, length-append,
}
use coap_share_drive.Base.Outcome.{ok, ◌>>=◌, Outcome-cases}
use coap_share_drive.Bytes.Utf8.{
  is_surrogate, encode_char, encode, six_bits, two_bytes, three_bytes, four_bytes, decode_char,
  decode_fuel, decode,
}

six_bits_lem : (x : ℕ) (rest : List ℕ) → x < 64 → six_bits ((0x80 + x) ∷ rest) ≡ ok (x, rest)
unfolding six_bits
six_bits_lem x rest h = ground arith

module _ (c : ℕ) (rest : List ℕ) where
  two_back :
      leb 0x80 c ≡ true
      → ltb c 0x800 ≡ true
      → decode_char ((0xc0 + c / 64) ∷ (0x80 + c % 64) ∷ rest) ≡ ok (c, rest)
  unfolding decode_char two_bytes
  two_back lo hi = ground (arith, six_bits_lem (c % 64) rest)

  three_back :
      leb 0x800 c ≡ true
      → ltb c 0x10000 ≡ true
      → is_surrogate c ≡ false
      → decode_char ((0xe0 + c / 4096) ∷ (0x80 + c / 64 % 64) ∷ (0x80 + c % 64) ∷ rest)
        ≡ ok (c, rest)
  unfolding decode_char three_bytes
  three_back lo hi plain =
      ground
        (arith, six_bits_lem (c % 64) rest, six_bits_lem (c / 64 % 64) ((0x80 + c % 64) ∷ rest))

  four_back :
      leb 0x10000 c ≡ true
      → ltb c 0x110000 ≡ true
      → decode_char (
          (0xf0 + c / 262144)
          ∷ (0x80 + c / 4096 % 64)
          ∷ (0x80 + c / 64 % 64)
          ∷ (0x80 + c % 64)
          ∷ rest)
        ≡ ok (c, rest)
  unfolding decode_char four_bytes
  four_back lo hi = ground (
    arith,
    six_bits_lem (c % 64) rest,
    six_bits_lem (c / 64 % 64) ((0x80 + c % 64) ∷ rest),
    six_bits_lem (c / 4096 % 64) ((0x80 + c / 64 % 64) ∷ (0x80 + c % 64) ∷ rest),
  )

  one_back : ltb c 0x80 ≡ true → decode_char (c ∷ rest) ≡ ok (c, rest)
  unfolding decode_char
  one_back lo = ground arith

-- decode_char undoes encode_char, whatever follows.
char_back :
    (c : ℕ) (front rest : List ℕ)
    → encode_char c ≡ ok front
    → decode_char (front ++ rest) ≡ ok (c, rest)
unfolding encode_char
char_back c front rest h =
    ground (arith, one_back c rest, two_back c rest, three_back c rest, four_back c rest)

encode_char_takes : (c : ℕ) (front : List ℕ) → encode_char c ≡ ok front → 1 ≤ length front
unfolding encode_char
encode_char_takes c front h = ground arith

decode_fuel_step :
    (fuel : ℕ) (bs : List ℕ) {c : ℕ} {rest : List ℕ}
    → decode_char bs ≡ ok (c, rest)
    → decode_fuel (suc fuel) bs ≡ (decode_fuel fuel rest >>= λ cs. ok (c ∷ cs))
unfolding decode_fuel
decode_fuel_step fuel [] e = unfold decode_char in cc
decode_fuel_step fuel (b ∷ bs) e = rw e

encode-cons :
    (c : ℕ) (cs bs : List ℕ)
    → encode (c ∷ cs) ≡ ok bs
    → (front : List ℕ) × (back : List ℕ) × (encode_char c ≡ ok front)
      × (encode cs ≡ ok back)
      × (bs ≡ front ++ back)
encode-cons c cs bs e = elim (Outcome-cases (encode_char c)) [
  | inr (x, p) ↦ absurd (unfold encode in ground arith)
  | inl (front, p) ↦ elim (Outcome-cases (encode cs)) [
    | inr (x, q) ↦ absurd (unfold encode in ground arith)
    | inl (back, q) ↦ (front, back, p, q, unfold encode in ground arith)
  ]
]

decode_fuel-encode :
    (t : List ℕ) (fuel : ℕ) (bs : List ℕ)
    → encode t ≡ ok bs
    → length bs ≤ fuel
    → decode_fuel fuel bs ≡ ok t
decode_fuel-encode [] fuel bs e h = unfold encode decode_fuel in ground arith
decode_fuel-encode (c ∷ cs) zero bs e h =
    let (front, back, p, q, s) = encode-cons c cs bs e in
    absurd (omega (arith, encode_char_takes c front p, length-append front back, ap length s))
decode_fuel-encode (c ∷ cs) (suc fuel) bs e h =
    let (front, back, p, q, s) = encode-cons c cs bs e in
    let room : length back ≤ fuel =
      omega (arith, encode_char_takes c front p, length-append front back, ap length s) in
    rw s (
      decode_fuel_step fuel (front ++ back) (char_back c front back p)
      ∙ rw (decode_fuel-encode cs fuel back q room))

-- Text comes back from its UTF-8 form.
pub decode-encode_text : (t bs : List ℕ) → encode t ≡ ok bs → decode bs ≡ ok t
unfolding decode
decode-encode_text t bs e = decode_fuel-encode t (length bs) bs e (omega arith)
