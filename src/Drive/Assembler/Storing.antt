-- ===== src/Drive/Assembler/Storing.antt =====
-- What is stored and written when blocks arrive in any order.
use coap_share_drive.Base.{
  ℕ, zero, suc, ◌+◌, ◌≤◌, ◌<◌, ◌≡◌, refl, inl, inr, Bool, true, false, Bool-cases, ◌==◌,
  if◌then◌else◌, none, some, [], ◌∷◌, ◌++◌, arith, ◌∙◌,
}
use coap_share_drive.Base.Eq.{nat_eq, list_eq, =?_refl}
use coap_share_drive.Base.Outcome.{ok}
use coap_share_drive.Base.Dict.{Dict, get, has, del, get-put, get-del}
use coap_share_drive.Bytes.{Bytes, Text}
use coap_share_drive.Packet.Value.{Payload, bytes}
use coap_share_drive.Drive.Assembler.{
  Operation, Files, content_of, append, bound, advance, write_packets,
}

lt-bound : (k : ℕ) (d : Dict ℕ Payload) → has k d ≡ true → k < bound d
unfolding has bound
lt-bound k [] h = absurd (ground arith)
lt-bound k ((j, v) ∷ d) h = ground (arith, nat_eq.beq_iff j k, lt-bound k d)

beyond : (k : ℕ) (d : Dict ℕ Payload) → bound d ≤ k → has k d ≡ false
beyond k d h = elim (Bool-cases (has k d)) [
  | inl e ↦ absurd (omega (arith, lt-bound k d e))
  | inr e ↦ e
]

pub advance-le : (fuel w : ℕ) (d : Dict ℕ Payload) → w ≤ advance fuel w d
unfolding advance
advance-le zero w d = omega arith
advance-le (suc fuel) w d = elim (Bool-cases (has (suc w) d)) [
  | inl e ↦ rw e (omega (arith, advance-le fuel (suc w) d))
  | inr e ↦ rw e (omega arith)
]

-- With the fuel that store_packet gives, the search ends in front of a packet that is missing.
pub advance-stops :
    (fuel w : ℕ) (d : Dict ℕ Payload) → bound d ≤ fuel + w → has (suc (advance fuel w d)) d ≡ false
unfolding advance
advance-stops zero w d h = beyond (suc w) d (omega arith)
advance-stops (suc fuel) w d h = elim (Bool-cases (has (suc w) d)) [
  | inl e ↦ rw e (advance-stops fuel (suc w) d (omega arith))
  | inr e ↦ rw (e, e)
]

-- All packets that the search passes are there.
pub advance-has :
    (fuel w i : ℕ) (d : Dict ℕ Payload) → w < i → i ≤ advance fuel w d → has i d ≡ true
unfolding advance
advance-has zero w i d h k = absurd (omega arith)
advance-has (suc fuel) w i d h k = elim (Bool-cases (has (suc w) d)) [
  | inl e ↦ elim (Bool-cases (i == suc w)) [
    | inl here ↦ let same : i ≡ suc w = ground arith in rw same e
    | inr other ↦ advance-has fuel (suc w) i d (ground arith) (rw e at k)
  ]
  | inr e ↦ let far : i ≤ w = rw e at k in absurd (omega arith)
]

-- The first `n` blocks, one behind the other.
unfoldable pub upto : (ℕ → Bytes) → ℕ → Bytes
upto block zero = []
upto block (suc n) = upto block n ++ block n

write_packets-there :
    (n i : ℕ) (path : Text) (b : Bytes) (received : Dict ℕ Payload) (files : Files)
    → get i received ≡ some (bytes b)
    → write_packets (suc n) i path received files
      ≡ write_packets n (suc i) path (del i received) (append path b files)
unfolding write_packets
write_packets-there n i path b received files e = rw (e, write_packets) refl

-- The packets that have arrived, with one more.
abbrev pub with_packet : ℕ → (ℕ → Bool) → ℕ → Bool
with_packet num seen i = if num == i then true else seen i

module _ (block : ℕ → Bytes) where
  -- Writing packets that are there appends their blocks to the file and leaves the later packets.
  pub write_packets_lem :
      (n i : ℕ) (path : Text) (received : Dict ℕ Payload) (files : Files)
      → ((j : ℕ) → i ≤ j → j < i + n → get j received ≡ some (bytes (block j)))
      → content_of (get path files) ≡ upto block i
      → (kept : Dict ℕ Payload) × (after : Files) × (write_packets n i path received files
          ≡ (kept, after, ok tt))
        × (content_of (get path after) ≡ upto block (i + n))
        × ((j : ℕ) → i + n ≤ j → get j kept ≡ get j received)
  unfolding write_packets
  write_packets_lem zero i path received files there c =
      let same : i + 0 ≡ i = omega arith in (received, files, refl, rw same c, λ j h. refl)
  write_packets_lem (suc n) i path received files there c =
      let (kept, after, e, c', k) =
        write_packets_lem n (suc i) path (del i received) (append path (block i) files) still
          one_more in
      let sum : i + suc n ≡ suc i + n = omega arith in
      (
        kept,
        after,
        write_packets-there n i path (block i) received files (there i (omega arith) (omega arith))
            ∙ e,
        rw sum c',
        λ j h. k j (omega arith) ∙ skip j (omega arith),
      )
    where
      skip : (j : ℕ) → i < j → get j (del i received) ≡ get j received
      skip j h = ground (arith, get-del i j received, nat_eq.beq_iff i j)

      still : (j : ℕ) → suc i ≤ j → j < suc i + n → get j (del i received) ≡ some (bytes (block j))
      still j h k = skip j (omega arith) ∙ there j (omega arith) (omega arith)

      one_more : content_of (get path (append path (block i) files)) ≡ upto block (suc i)
      one_more = unfold append upto in rw (get-put, =?_refl path, c)

  -- An operation and its file when the packets in `seen` have arrived: the blocks in front of the
  -- first one missing are in the file, in order, and the later ones that have arrived are kept.
  pub record InProgress (seen : ℕ → Bool) (op : Operation) (content : Bytes) : Type 0 where
    pub before : (i : ℕ) → i < op.write_index → seen i ≡ true
    pub missing : seen op.write_index ≡ false
    pub kept :
        (i : ℕ)
        → op.write_index ≤ i
        → get i op.received_packets ≡ (if seen i then some (bytes (block i)) else none)
    pub in_file : content ≡ upto block op.write_index
