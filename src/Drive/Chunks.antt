-- ===== src/Drive/Chunks.antt =====
-- share_drive/share_drive_helpers/drive_utils.py, get_total_packets and split_on_packets: a file,
-- as its content, in blocks.
pub mod Counting
use coap_share_drive.Base.{
  ℕ, zero, suc, ◌+◌, ◌-◌, ◌/◌, ◌≤◌, ◌<◌, ◌≡◌, refl, ◌∙◌, ap, Bool, true, false, if◌then◌else◌, List,
  [], ◌∷◌, ◌++◌, arith, length, take, drop, length-take, length-drop, take-append-drop, All, min,
}
use coap_share_drive.Bytes.{Bytes}
use coap_share_drive.Packet.Value.{is_empty}

-- `(file_size + block_size - 1) // block_size`, for a block size that is not 0
unfoldable pub get_total_packets : Bytes → ℕ → ℕ
get_total_packets content block_size = (length content + block_size - 1) / block_size

-- `while True: file_data = file.read(block_size); if not file_data: break; yield file_data`, with
-- the bytes not yet read
unfoldable pub read_blocks : ℕ → ℕ → Bytes → List Bytes
read_blocks zero block_size unread = []
read_blocks (suc fuel) block_size unread =
    let rest = read_blocks fuel block_size (drop block_size unread) in
    if is_empty (take block_size unread) then [] else take block_size unread ∷ rest

-- Each round reads a byte at least, so as many rounds as bytes are enough.
unfoldable pub split_on_packets : Bytes → ℕ → List Bytes
unfolding read_blocks
split_on_packets content block_size = read_blocks (length content) block_size content

-- The blocks one behind the other.
unfoldable pub joined : List Bytes → Bytes
joined [] = []
joined (b ∷ bs) = b ++ joined bs

read_blocks-joined :
    (fuel size : ℕ) (unread : Bytes)
    → 0 < size
    → length unread ≤ fuel
    → joined (read_blocks fuel size unread) ≡ unread
unfolding read_blocks joined
read_blocks-joined zero size [] h k = refl
read_blocks-joined zero size (x ∷ l) h k = absurd (omega arith)
read_blocks-joined (suc fuel) zero unread h k = absurd (omega arith)
read_blocks-joined (suc fuel) (suc size) [] h k = refl
read_blocks-joined (suc fuel) (suc size) (x ∷ l) h k =
    ap (λ r. x ∷ (take size l ++ r))
      (read_blocks-joined fuel (suc size) (drop size l) h (omega (arith, length-drop size l)))
    ∙ ap (◌∷◌ x) (take-append-drop size l)

-- The blocks of a file make up the file, whatever the block size but 0.
pub split_on_packets-joined :
    (content : Bytes) (size : ℕ) → 0 < size → joined (split_on_packets content size) ≡ content
unfolding split_on_packets
split_on_packets-joined content size h =
    read_blocks-joined (length content) size content h (omega arith)
