-- ===== src/Drive/Chunks/Counting.antt =====
-- How many blocks there are, and how long they are.
use native.Mathlib.Nat.{add-div_right, div-eq_of_lt}
use native.Mathlib.Decide.{dec_le}
use coap_share_drive.Base.{
  sym, ℕ, zero, suc, ◌+◌, ◌-◌, ◌/◌, ◌≤◌, ◌<◌, ◌≡◌, refl, ◌∙◌, ap, [], ◌∷◌, arith, length, drop,
  length-take, length-drop, All,
}
use coap_share_drive.Bytes.{Bytes}
use coap_share_drive.Drive.Chunks.{read_blocks, split_on_packets, get_total_packets}

-- One block more for `size` bytes more.
round_up :
    (n size : ℕ) → 0 < size → size ≤ n → (n + size - 1) / size ≡ suc ((n - size + size - 1) / size)
round_up n size h k =
    let regroup : n + size - 1 ≡ n - size + size - 1 + size = omega arith in
    rw regroup (omega (arith, add-div_right (n - size + size - 1) h))

short_round_up : (n size : ℕ) → 0 < n → n ≤ size → (n + size - 1) / size ≡ 1
short_round_up n size h k = grind arith

none_round_up : (size : ℕ) → 0 < size → (0 + size - 1) / size ≡ 0
none_round_up size h = div-eq_of_lt (omega arith)

-- One round: what is left needs one packet less.
one_less :
    (n size : ℕ) → 0 < size → (suc n + size - 1) / size ≡ suc ((suc n - size + size - 1) / size)
one_less n size h = elim (dec_le size (suc n)) [
  | yes enough ↦ round_up (suc n) size h enough
  | no short ↦
      let nothing : suc n - size ≡ 0 = omega arith in
      short_round_up (suc n) size (omega arith) (omega arith)
      ∙ rw nothing (ap suc (sym (none_round_up size h)))
]

next_round :
    (n size : ℕ)
    → 0 < suc size
    → suc ((n - size + suc size - 1) / suc size) ≡ (suc n + suc size - 1) / suc size
next_round n size h =
    let same : suc n - suc size ≡ n - size = omega arith in
    sym (one_less n (suc size) h ∙ rw same refl)

length-read_blocks :
    (fuel size : ℕ) (unread : Bytes)
    → 0 < size
    → length unread ≤ fuel
    → length (read_blocks fuel size unread) ≡ (length unread + size - 1) / size
unfolding read_blocks
length-read_blocks zero size [] h k = sym (none_round_up size h)
length-read_blocks zero size (x ∷ l) h k = absurd (omega arith)
length-read_blocks (suc fuel) zero unread h k = absurd (omega arith)
length-read_blocks (suc fuel) (suc size) [] h k = sym (none_round_up (suc size) h)
length-read_blocks (suc fuel) (suc size) (x ∷ l) h k =
    ap suc (length-read_blocks fuel (suc size) (drop size l) h (omega (arith, length-drop size l)))
    ∙ rw (length-drop size l) (next_round (length l) size h)

-- The packet count that is announced is the number of blocks.
pub length-split_on_packets :
    (content : Bytes) (size : ℕ)
    → 0 < size
    → length (split_on_packets content size) ≡ get_total_packets content size
unfolding split_on_packets get_total_packets
length-split_on_packets content size h =
    length-read_blocks (length content) size content h (omega arith)

read_blocks-sizes :
    (fuel size : ℕ) (unread : Bytes)
    → All (λ b. (0 < length b) × (length b ≤ size)) (read_blocks fuel size unread)
unfolding read_blocks
read_blocks-sizes zero size unread = tt
read_blocks-sizes (suc fuel) zero unread = tt
read_blocks-sizes (suc fuel) (suc size) [] = tt
read_blocks-sizes (suc fuel) (suc size) (x ∷ l) = (
  (omega arith, omega (arith, length-take size l)),
  read_blocks-sizes fuel (suc size) (drop size l),
)

-- No block is empty, and none is longer than the block size.
pub split_on_packets-sizes :
    (content : Bytes) (size : ℕ)
    → All (λ b. (0 < length b) × (length b ≤ size)) (split_on_packets content size)
unfolding split_on_packets
split_on_packets-sizes content size = read_blocks-sizes (length content) size content
