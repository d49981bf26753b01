-- ===== src/Packet/Block.antt =====
-- coap_packet.py, decode_option_block and encode_option_block.
use coap_share_drive.Base.{
  ℕ, zero, suc, ◌+◌, ◌*◌, ◌/◌, ◌%◌, ◌^◌, ◌<◌, bit_or, ◌≡◌, refl, Option, none, some, arith,
  if◌then◌else◌,
}
use coap_share_drive.Base.Outcome.{Outcome, ok, err, type_error, ◌>>=◌}
use coap_share_drive.Bytes.Bits.{bit_or-shift}
use coap_share_drive.Packet.Value.{OptionValue, str, int, bytes, nothing, option_truth}

pub record Block : Type 0 where
  pub num : ℕ
  pub m : ℕ
  pub szx : ℕ
  pub block_size : ℕ

-- `option >> 4`, `(option >> 3) & 0b1`, `option & 0b111`; a value that is no number has no `>>`.
abbrev block_fields : OptionValue → Outcome (Option Block)
block_fields (int option) = ok (
    some (record {
      num = option / 2 ^ 4;
      m = option / 2 ^ 3 % 2 ^ 1;
      szx = option % 2 ^ 3;
      block_size = 2 ^ (option % 2 ^ 3 + 4);
    }))
block_fields (str t) = err type_error
block_fields (bytes b) = err type_error
block_fields nothing = err type_error

-- `if not option: return None`
unfoldable pub decode_option_block : OptionValue → Outcome (Option Block)
decode_option_block option = if option_truth option then block_fields option else ok none

-- `(num << 4) | (m << 3) | szx`
unfoldable pub encode_option_block : ℕ → ℕ → ℕ → ℕ
encode_option_block num m szx = bit_or (bit_or (num * 2 ^ 4) (m * 2 ^ 3)) szx

-- `decode_option_block(value)["NUM"]` and the like: None cannot be subscripted.
unfoldable pub block_of : OptionValue → Outcome Block
unfolding decode_option_block
block_of value = do
  found ← decode_option_block value
  elim found [ none ↦ err type_error | some block ↦ ok block ]

pub encode_option_block-sum :
    (num m szx : ℕ) → m < 2 → szx < 8 → encode_option_block num m szx ≡ num * 16 + m * 8 + szx
unfolding encode_option_block
encode_option_block-sum num m szx hm hs =
    let upper : num * 2 ^ 4 + m * 2 ^ 3 ≡ (num * 2 + m) * 2 ^ 3 = omega arith in
    rw (bit_or-shift 4 num (m * 2 ^ 3) (omega arith), upper, bit_or-shift 3 (num * 2 + m) szx hs)
      (omega arith)

-- The fields of an option block, when its value is not 0.
pub block_at : ℕ → Block
block_at v = record { num = v / 16; m = v / 8 % 2; szx = v % 8; block_size = 2 ^ (v % 8 + 4) }

pub block_of-int : (v : ℕ) → 0 < v → block_of (int v) ≡ ok (block_at v)
unfolding block_of block_at
block_of-int v h = ground arith

-- Decoding an encoded option block gives its number, flag and size exponent and the block size,
-- for a one-bit flag and a three-bit exponent that are not both 0 with the number.
pub block_of-encode_option_block :
    (num m szx : ℕ)
    → m < 2
    → szx < 8
    → 0 < num + m + szx
    → block_of (int (encode_option_block num m szx))
      ≡ ok (record { num = num; m = m; szx = szx; block_size = 2 ^ (szx + 4) })
block_of-encode_option_block num m szx hm hs some_bit =
    let v : ℕ = num * 16 + m * 8 + szx in
    let size_of : v % 8 ≡ szx = omega arith in
    rw (encode_option_block-sum num m szx hm hs, block_of-int v (omega arith))
      (unfold block_at in rw size_of (ground arith))

-- Encoding the fields that were read from an option block gives its value back.
pub encode_option_block-block_of :
    (v : ℕ) (b : Block) → block_of (int v) ≡ ok b → encode_option_block b.num b.m b.szx ≡ v
encode_option_block-block_of zero b e = unfold block_of in cc
encode_option_block-block_of (suc n) b e =
    let v : ℕ = suc n in
    let fields : b ≡ block_at v = ground (arith, block_of-int v (omega arith)) in
    rw fields (
      unfold block_at in
      rw (encode_option_block-sum (v / 16) (v / 8 % 2) (v % 8) (omega arith) (omega arith))
        (omega arith))

-- The block whose fields are all 0 is encoded as 0, which decodes to None: its fields cannot be read.
pub block_of-zero : block_of (int (encode_option_block 0 0 0)) ≡ err type_error
unfolding encode_option_block block_of
block_of-zero = refl

pub decode_option_block-int : (v : ℕ) → 0 < v → decode_option_block (int v) ≡ ok (some (block_at v))
unfolding decode_option_block block_at
decode_option_block-int v h = ground arith

pub decode-encode_option_block :
    (num m szx : ℕ)
    → m < 2
    → szx < 8
    → 0 < szx
    → decode_option_block (int (encode_option_block num m szx))
      ≡ ok (some (record { num = num; m = m; szx = szx; block_size = 2 ^ (szx + 4) }))
decode-encode_option_block num m szx hm hs some_bit =
    let v : ℕ = num * 16 + m * 8 + szx in
    let size_of : v % 8 ≡ szx = omega arith in
    rw (encode_option_block-sum num m szx hm hs, decode_option_block-int v (omega arith))
      (unfold block_at in rw size_of (ground arith))
