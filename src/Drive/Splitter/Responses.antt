-- ===== src/Drive/Splitter/Responses.antt =====
-- What the receiver reads in the responses of the splitter.
use coap_share_drive.Base.{
  ℕ, suc, ◌+◌, ◌-◌, ◌^◌, ◌<◌, ◌≤◌, ◌≡◌, refl, inl, inr, ◌==◌, Bool-cases, true, false,
  if◌then◌else◌, Option, none, some, [], ◌∷◌, arith, ap, ◌∙◌,
}
use coap_share_drive.Base.Eq.{nat_eq}
use coap_share_drive.Base.Outcome.{ok, ◌>>=◌}
use coap_share_drive.Base.Dict.{put, get, has}
use coap_share_drive.Bytes.{Bytes, Text}
use coap_share_drive.Packet.{
  Packet, Address, GeneralWorkId, general_work_id, get_option_code, get_size_code, get_block_id,
  option_at, get_size_code_based_on_option, copy,
}
use coap_share_drive.Packet.Value.{OptionValue, str, int, bytes}
use coap_share_drive.Packet.Block.{
  Block, block_of, decode_option_block, encode_option_block, decode-encode_option_block,
}
use coap_share_drive.Packet.Encode.{sorted_items, insert_sorted}
use coap_share_drive.Packet.RoundTrip.{arrived}
use coap_share_drive.Templates.{addressed}
use coap_share_drive.Drive.DriveTemplates
use coap_share_drive.Drive.Assembler.Handling.{option_of, check_size}
use coap_share_drive.Drive.Assembler.Delivery.{IsBlockOf}
use coap_share_drive.Drive.Splitter.{response}

-- Which way a file goes: its blocks are numbered by BLOCK2 and SIZE2 in a download, and by BLOCK1 and
-- SIZE1 in an upload.
pub data Direction : Type 0 where
  download upload : Direction

abbrev pub block_code : Direction → ℕ
block_code download = 23
block_code upload = 27

abbrev pub size_code : Direction → ℕ
size_code download = 28
size_code upload = 60

-- 1 but for the last block
abbrev pub flag : ℕ → ℕ → ℕ
flag index total = if index == total then 0 else 1

-- The block that the response of this index announces.
abbrev pub block_of_index : ℕ → ℕ → ℕ → Block
block_of_index szx total index = record {
  num = index - 1;
  m = flag index total;
  szx = szx;
  block_size = 2 ^ (szx + 4);
}

pub flag-lt : (index total : ℕ) → flag index total < 2
flag-lt index total = ground arith

-- What a packet must hold to bring a block to the receiver, said of its options: the block option, and
-- the size with the first block.
module _ (work : GeneralWorkId) (n : ℕ) (block : ℕ → Bytes) (b : Block) (p : Packet)
    (value name : OptionValue) (of_work : general_work_id p ≡ work)
    (decoded : decode_option_block value ≡ ok (some b)) (range : b.num < n)
    (more : (b.m == 0) ≡ (suc b.num == n)) (carries : p.payload ≡ bytes (block b.num)) where
  read : block_of value ≡ ok b
  read = unfold block_of in rw decoded refl

  first_option :
      (way : Direction) (total : OptionValue)
      → p.options ≡ (8, name) ∷ (12, int 42) ∷ (block_code way, value) ∷ (size_code way, total) ∷ []
      → (option_of (get_option_code p) p >>= decode_option_block) ≡ ok (some b)
  unfolding option_of get_option_code option_at get has
  first_option download total o = rw o decoded
  first_option upload total o = rw o decoded

  first_size :
      (way : Direction) (total : OptionValue)
      → p.options ≡ (8, name) ∷ (12, int 42) ∷ (block_code way, value) ∷ (size_code way, total) ∷ []
      → check_size p ≡ ok (if b.num == 0 then some total else none)
  unfolding option_of get_option_code option_at get has check_size get_block_id get_size_code
  first_size download total o = elim (Bool-cases (b.num == 0)) [
    | inl e ↦ rw (o, read, e) refl
    | inr e ↦ rw (o, read, e) refl
  ]
  first_size upload total o = elim (Bool-cases (b.num == 0)) [
    | inl e ↦ rw (o, read, e) refl
    | inr e ↦ rw (o, read, e) refl
  ]

  first-IsBlockOf :
      (way : Direction) (total : OptionValue)
      → p.options ≡ (8, name) ∷ (12, int 42) ∷ (block_code way, value) ∷ (size_code way, total) ∷ []
      → IsBlockOf work n block b p
  first-IsBlockOf way total o = record {
    of_work = of_work;
    option = first_option way total o;
    size = if b.num == 0 then some total else none;
    size_there = elim (Bool-cases (b.num == 0)) [
      | inl e ↦ first_size way total o ∙ rw e refl
      | inr e ↦ first_size way total o ∙ rw e refl
    ];
    in_range = range;
    more = more;
    carries = carries;
  }

  later_option :
      (way : Direction)
      → p.options ≡ (8, name) ∷ (12, int 42) ∷ (block_code way, value) ∷ []
      → (option_of (get_option_code p) p >>= decode_option_block) ≡ ok (some b)
  unfolding option_of get_option_code option_at get has
  later_option download o = rw o decoded
  later_option upload o = rw o decoded

  later_size :
      (way : Direction)
      → p.options ≡ (8, name) ∷ (12, int 42) ∷ (block_code way, value) ∷ []
      → (b.num == 0) ≡ false
      → check_size p ≡ ok none
  unfolding option_of get_option_code option_at get has check_size get_block_id get_size_code
  later_size download o other = rw (o, read, other) refl
  later_size upload o other = rw (o, read, other) refl

  later-IsBlockOf :
      (way : Direction)
      → p.options ≡ (8, name) ∷ (12, int 42) ∷ (block_code way, value) ∷ []
      → 0 < b.num
      → IsBlockOf work n block b p
  later-IsBlockOf way o later = record {
    of_work = of_work;
    option = later_option way o;
    size = none;
    size_there = later_size way o (ground arith);
    in_range = range;
    more = more;
    carries = carries;
  }

-- The options of a response, as they are written and as they arrive.
pub response-options_first :
    (way : Direction) (request : Packet) (name : Text) (szx total index : ℕ) (payload : Bytes)
    → get_size_code_based_on_option request ≡ some (size_code way)
    → (index == 1) ≡ true
    → sorted_items (response request name (block_code way) szx total index payload).options
      ≡ (8, str name)
        ∷ (12, int 42)
        ∷ (block_code way, int (encode_option_block (index - 1) (flag index total) szx))
        ∷ (size_code way, int total)
        ∷ []
unfolding response sorted_items insert_sorted put DriveTemplates.value_with
    DriveTemplates.coap_packet addressed copy
response-options_first download request name szx total index payload code e = rw (code, e) refl
response-options_first upload request name szx total index payload code e = rw (code, e) refl

pub response-options_later :
    (way : Direction) (request : Packet) (name : Text) (szx total index : ℕ) (payload : Bytes)
    → get_size_code_based_on_option request ≡ some (size_code way)
    → (index == 1) ≡ false
    → sorted_items (response request name (block_code way) szx total index payload).options
      ≡ (8, str name)
        ∷ (12, int 42)
        ∷ (block_code way, int (encode_option_block (index - 1) (flag index total) szx))
        ∷ []
unfolding response sorted_items insert_sorted put DriveTemplates.value_with
    DriveTemplates.coap_packet addressed copy
response-options_later download request name szx total index payload code e = rw (code, e) refl
response-options_later upload request name szx total index payload code e = rw (code, e) refl

-- The response to a request with BLOCK1 or BLOCK2, as it arrives: it reads as the packet of its block, with the
-- token of the request and the address that it comes from. The size exponent is not 0.
pub response-IsBlockOf :
    (way : Direction) (request : Packet) (basename : Text) (szx total index : ℕ) (payload : Bytes)
    (block : ℕ → Bytes) (address : Option Address)
    → get_size_code_based_on_option request ≡ some (size_code way)
    → 0 < szx
    → szx < 8
    → 0 < index
    → index ≤ total
    → payload ≡ block (index - 1)
    → IsBlockOf
        (address, request.token)
        total
        block
        (block_of_index szx total index)
        (arrived (response request basename (block_code way) szx total index payload) address)
unfolding response
response-IsBlockOf way request basename szx total index payload block address code some_bit fits
      first last carries =
    elim (Bool-cases (index == 1)) [
      | inl e ↦
          first-IsBlockOf (address, request.token) total block (block_of_index szx total index) p
            value (str basename) of_work decoded (omega arith) more brings way (int total)
            (response-options_first way request basename szx total index payload code e)
      | inr e ↦
          later-IsBlockOf (address, request.token) total block (block_of_index szx total index) p
            value (str basename) of_work decoded (omega arith) more brings way
            (response-options_later way request basename szx total index payload code e)
            (ground arith)
    ]
  where
    p : Packet
    p = arrived (response request basename (block_code way) szx total index payload) address

    value : OptionValue
    value = int (encode_option_block (index - 1) (flag index total) szx)

    decoded : decode_option_block value ≡ ok (some (block_of_index szx total index))
    decoded =
        decode-encode_option_block (index - 1) (flag index total) szx (flag-lt index total) fits
          some_bit

    more : (flag index total == 0) ≡ (suc (index - 1) == total)
    more = ground arith

    brings : p.payload ≡ bytes (block (index - 1))
    brings = ap bytes carries

    of_work : general_work_id p ≡ (address, request.token)
    of_work = unfold general_work_id DriveTemplates.value_with addressed in refl
