-- ===== src/Packet/Caching.antt =====
-- What `encode` leaves in the packet: the bytes, which a later call returns at once.
use coap_share_drive.Base.{
  ℕ, ◌≡◌, refl, inl, inr, true, false, Bool-cases, [], ◌∷◌, ◌++◌, ap, ◌∙◌, sym,
}
use coap_share_drive.Base.Outcome.{ok, ok-inj, err, Exc, Outcome-cases}
use coap_share_drive.Bytes.{Bytes}
use coap_share_drive.Packet.{Packet, work_id, general_work_id, get_block_id, option_at}
use coap_share_drive.Packet.Value.{Payload, is_empty}
use coap_share_drive.Packet.Decode.{JsonCodec}
use coap_share_drive.Packet.Encode.{
  encode, encode_header, encode_options, encode_payload, sorted_items,
}

is_empty-append-cons :
    (a b c : Bytes) (x : ℕ) (d : Bytes) → is_empty (a ++ (b ++ (c ++ (x ∷ d)))) ≡ false
is_empty-append-cons [] [] [] x d = refl
is_empty-append-cons [] [] (y ∷ c) x d = refl
is_empty-append-cons [] (y ∷ b) c x d = refl
is_empty-append-cons (y ∷ a) b c x d = refl

-- Encoding changes the payload and the cached bytes only, and the bytes are those returned.
pub record Encoded (p : Packet) (b : Bytes) (q : Packet) : Type 0 where
  pub after : Payload
  pub only : q ≡ record p { payload = after; encoded = b }
  pub some_byte : is_empty b ≡ false

err-ne-ok : {x : Exc} {r : Bytes × Packet} → err x ≡ ok r → ⊥
err-ne-ok h = cc

both : {r s : Bytes × Packet} → ok r ≡ ok s → (s.0 ≡ r.0) × (s.1 ≡ r.1)
both h = let same = sym (ok-inj h) in (ap (λ x. x.0) same, ap (λ x. x.1) same)

-- The first call: header, token, options and payload.
encode-first :
    (json : JsonCodec) (p q : Packet) (b : Bytes)
    → is_empty p.encoded ≡ true
    → encode json p ≡ ok (b, q)
    → Encoded p b q
unfolding encode
encode-first json p q b first e = elim (Outcome-cases (encode_header p)) [
  | inr (x, h) ↦ absurd (err-ne-ok (rw (first, h) at e))
  | inl (header, h) ↦ elim (Outcome-cases (encode_options 0 (sorted_items p.options))) [
    | inr (x, o) ↦ absurd (err-ne-ok (rw (first, h, o) at e))
    | inl (options, o) ↦ elim (Outcome-cases (encode_payload json p.options p.payload)) [
      | inr (x, w) ↦ absurd (err-ne-ok (rw (first, h, o, w) at e))
      | inl ((raw, after), w) ↦
          let (same_bytes, same) = both (rw (first, h, o, w) at e) in
          record {
            after = after;
            only = same ∙ ap (λ c. record p { payload = after; encoded = c }) (sym same_bytes);
            some_byte = rw same_bytes (is_empty-append-cons header p.token options 0xff raw);
          }
    ]
  ]
]

pub encode-Encoded :
    (json : JsonCodec) (p q : Packet) (b : Bytes) → encode json p ≡ ok (b, q) → Encoded p b q
unfolding encode
encode-Encoded json p q b e = elim (Bool-cases (is_empty p.encoded)) [
  | inl first ↦ encode-first json p q b first e
  | inr cached ↦
      let (same_bytes, same) = both (rw cached at e) in
      record {
        after = p.payload;
        only = same ∙ ap (λ c. record p { encoded = c }) (sym same_bytes);
        some_byte = rw same_bytes cached;
      }
]

-- Encoding is idempotent: a packet that has been encoded once gives the same bytes again, and is not
-- changed any more.
pub encode-encode :
    (json : JsonCodec) (p q : Packet) (b : Bytes)
    → encode json p ≡ ok (b, q)
    → encode json q ≡ ok (b, q)
encode-encode json p q b e =
    let s : Encoded p b q = encode-Encoded json p q b e in
    let known : q.encoded ≡ b = ap (λ r. r.encoded) s.only in
    cached q b known (rw known s.some_byte)
  where
    cached :
        (q : Packet) (b : Bytes)
        → q.encoded ≡ b
        → is_empty q.encoded ≡ false
        → encode json q ≡ ok (b, q)
    cached q b k h = unfold encode in rw h (ap (λ c. ok (c, q)) k)

-- Encoding keeps what the transaction pool knows a packet by.
pub encode-work_id :
    (json : JsonCodec) (p q : Packet) (b : Bytes)
    → encode json p ≡ ok (b, q)
    → (work_id q ≡ work_id p)
      × (general_work_id q ≡ general_work_id p)
      × (q.sender_ip_port ≡ p.sender_ip_port)
encode-work_id json p q b e =
    let s : Encoded p b q = encode-Encoded json p q b e in rw s.only (kept p s.after b)
  where
    kept :
        (p : Packet) (after : Payload) (b : Bytes)
        → let q : Packet = record p { payload = after; encoded = b } in
          (work_id q ≡ work_id p)
          × (general_work_id q ≡ general_work_id p)
          × (q.sender_ip_port ≡ p.sender_ip_port)
    kept p after b = unfold work_id general_work_id get_block_id option_at in (refl, refl, refl)
