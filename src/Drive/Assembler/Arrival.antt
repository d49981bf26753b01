-- ===== src/Drive/Assembler/Arrival.antt =====
-- One packet more: the operation stays in progress, whichever block it brings.
use coap_share_drive.Base.{
  ℕ, suc, ltb, ◌+◌, ◌-◌, ◌≤◌, ◌<◌, ◌≡◌, ◌≢◌, ◌⊎◌, refl, inl, inr, Bool, true, Bool-cases, ◌==◌,
  if◌then◌else◌, none, some, arith, ap, ◌∙◌, sym,
}
use coap_share_drive.Base.Eq.{nat_eq, list_eq}
use coap_share_drive.Base.Outcome.{ok}
use coap_share_drive.Base.Dict.{Dict, get, has, put, get-put, has-get}
use coap_share_drive.Bytes.{Bytes, Text}
use coap_share_drive.Packet.Value.{Payload, bytes}
use coap_share_drive.Drive.Assembler.{
  Operation, Files, content_of, bound, advance, write_packets, store_packet, written,
}
use coap_share_drive.Drive.Assembler.Storing.{
  InProgress, with_packet, upto, write_packets_lem, advance-has, advance-le, advance-stops,
}

module _ (block : ℕ → Bytes) (num : ℕ) (seen : ℕ → Bool) (op : Operation) where
  abbrev received : Dict ℕ Payload
  received = put num (bytes (block num)) op.received_packets

  abbrev last : ℕ
  last = advance (bound received) num received

  get-received :
      {content : Bytes}
      → InProgress block seen op content
      → (i : ℕ) → op.write_index ≤ i
      → get i received ≡ (if with_packet num seen i then some (bytes (block i)) else none)
  get-received s i h = elim (Bool-cases (num == i)) [
    | inl same ↦
        let e : num ≡ i = ground arith in
        get-put num i (bytes (block num)) op.received_packets
        ∙ rw same (ap (λ j. some (bytes (block j))) e)
    | inr other ↦ get-put num i (bytes (block num)) op.received_packets ∙ rw other (s.kept i h)
  ]

  has-received :
      {content : Bytes}
      → InProgress block seen op content
      → (i : ℕ) → op.write_index ≤ i
      → has i received ≡ with_packet num seen i
  has-received s i h =
      rw (has-get i received, get-received s i h)
        (elim (Bool-cases (with_packet num seen i)) [ inl e ↦ rw e refl | inr e ↦ rw e refl ])

  arrived :
      {content : Bytes}
      → InProgress block seen op content
      → op.write_index ≡ num
      → (j : ℕ) → num ≤ j
      → j ≤ last
      → with_packet num seen j ≡ true
  arrived s e j h k = elim (Bool-cases (num == j)) [
    | inl same ↦ rw same refl
    | inr other ↦
        sym (has-received s j (omega arith))
        ∙ advance-has (bound received) num j received (ground arith) k
  ]

  there :
      {content : Bytes}
      → InProgress block seen op content
      → op.write_index ≡ num
      → (j : ℕ) → num ≤ j
      → j < num + suc (last - num)
      → get j received ≡ some (bytes (block j))
  there s e j h k =
      get-received s j (omega arith)
      ∙ rw (arrived s e j h (omega (arith, advance-le (bound received) num received))) refl

  -- A packet that was not the one waited for is kept, and changes nothing in the file.
  kept_packet :
      {content : Bytes}
      → InProgress block seen op content
      → op.write_index ≢ num
      → InProgress block (with_packet num seen) (record op { received_packets = received }) content
  kept_packet s n = record {
    before =
        λ i h. elim (Bool-cases (num == i)) [ inl e ↦ rw e refl | inr e ↦ rw e (s.before i h) ];
    missing = elim (Bool-cases (num == op.write_index)) [
      | inl e ↦ absurd (n (ground arith))
      | inr e ↦ rw e s.missing
    ];
    kept = get-received s;
    in_file = s.in_file;
  }

  -- The packet waited for is written with all that follow it.
  written_packets :
      (path : Text) (files : Files)
      → InProgress block seen op (content_of (get path files))
      → op.write_index ≡ num
      → (after : Operation) × (files' : Files) × (written op last path
            (write_packets (suc (last - num)) num path received files)
          ≡ (after, files', ok path))
        × InProgress block (with_packet num seen) after (content_of (get path files'))
        × (after.total_responses ≡ op.total_responses)
  written_packets path files s e =
      let (kept, files', w, c, k) =
        write_packets_lem block (suc (last - num)) num path received files (there s e)
          (s.in_file ∙ ap (upto block) e) in
      let sum : num + suc (last - num) ≡ suc last =
        omega (arith, advance-le (bound received) num received) in
      (
        record op { write_index = suc last; received_packets = kept },
        files',
        rw w refl,
        record {
          before = λ i h. passed i h;
          missing =
              sym (
                has-received s (suc last) (omega (arith, advance-le (bound received) num received)))
              ∙ advance-stops (bound received) num received (omega arith);
          kept = λ i h.
              k i (omega (arith, sum))
              ∙ get-received s i (omega (arith, advance-le (bound received) num received));
          in_file = c ∙ ap (upto block) sum;
        },
        refl,
      )
    where
      passed : (i : ℕ) → i < suc last → with_packet num seen i ≡ true
      passed i h = elim (Bool-cases (ltb i num)) [
        | inr far ↦ arrived s e i (ground arith) (omega arith)
        | inl near ↦ elim (Bool-cases (num == i)) [
          | inl x ↦ rw x refl
          | inr x ↦ rw x (s.before i (ground arith))
        ]
      ]

-- Storing a packet of any number, in order, out of order or once more, keeps the operation in
-- progress, now with that packet among those that have arrived; it raises nothing. The file is the one
-- at the full path, and the path that is gone on with is the full path or the one that was given.
pub store_packet-InProgress :
    (block : ℕ → Bytes) (num : ℕ) (seen : ℕ → Bool) (op : Operation) (path full : Text)
    (files : Files)
    → InProgress block seen op (content_of (get full files))
    → (after : Operation) × (files' : Files) × (final : Text) × (store_packet num
          (bytes (block num))
          path
          (ok full)
          op
          files
        ≡ (after, files', ok final))
      × ((final ≡ full) ⊎ (final ≡ path))
      × InProgress block (with_packet num seen) after (content_of (get full files'))
      × (after.total_responses ≡ op.total_responses)
unfolding store_packet
store_packet-InProgress block num seen op path full files s =
    elim (Bool-cases (op.write_index == num)) [
      | inl e ↦
          let (after, files', w, p, t) =
            written_packets block num seen op full files s (ground arith) in
          (after, files', full, rw (e, w) refl, inl refl, p, t)
      | inr e ↦ (
        _,
        files,
        path,
        rw e refl,
        inr refl,
        kept_packet block num seen op s (ground arith),
        refl,
      )
    ]
