-- ===== src/Drive/Splitter/Loop.antt =====
-- The sending loop: where the congestion check lets every packet through, each response is sent once,
-- in the order of the blocks, and is put into the pool.
use coap_share_drive.Base.{
  ℕ, suc, not, ◌==◌, ◌≡◌, refl, Bool, true, false, leb, Option, some, List, [], ◌∷◌, ◌++◌,
  append_assoc, append-nil, ◌∙◌, ap, inl, inr, Bool-cases, if◌then◌else◌,
}
use coap_share_drive.Base.Outcome.{ok}
use coap_share_drive.Base.Dict.{has, put}
use coap_share_drive.Bytes.{Bytes}
use coap_share_drive.Packet.{Packet, Address, WorkId, GeneralWorkId, work_id, general_work_id}
use coap_share_drive.Packet.Keys.{work_id_eq, general_work_id_eq}
use coap_share_drive.Packet.Decode.{JsonCodec, decode}
use coap_share_drive.Packet.Encode.{encode}
use coap_share_drive.Packet.RoundTrip.{arrived}
use coap_share_drive.Packet.Caching.{encode-encode, encode-work_id}
use coap_share_drive.Transaction.{Datagram, concurrent_transactions, new}
use coap_share_drive.Transaction.Pool.{
  Pool, running, spin_while, handle_congestions, is_overall_transaction_failed, add_transaction,
}
use coap_share_drive.Drive.Splitter.{send_packets, all_sent}

-- A packet that can be encoded, that has a key in the pool, and whose bytes decode to it.
pub record Sendable (json : JsonCodec) (work : GeneralWorkId) (p : Packet) : Type 0 where
  pub bytes : Bytes
  pub sent : Packet
  pub encodes : encode json p ≡ ok (bytes, sent)
  pub key : WorkId
  pub keyed : work_id p ≡ ok key
  pub of_work : general_work_id p ≡ work
  pub arrives : (address : Option Address) → decode json bytes address ≡ ok (arrived p address)

-- Both waits of the congestion check end: at some length there is room, and behind it, as the last
-- packet waits for it, at some length nothing is left.
abbrev pub MakesRoom : List ℕ → Type 0
MakesRoom lengths =
    (later : List ℕ) × (spin_while (λ n. leb concurrent_transactions n) lengths ≡ some later)
    × (after : List ℕ) × (spin_while (λ n. not (n == 0)) later ≡ some after)

-- A packet of a work that has not failed is let through.
pub handle_congestions-room :
    (p : Packet) (last : Bool) (pool : Pool) (lengths : List ℕ)
    → MakesRoom lengths
    → has (general_work_id p) pool.failed ≡ false
    → handle_congestions p last pool lengths ≡ some false
unfolding handle_congestions is_overall_transaction_failed
handle_congestions-room p true pool lengths room h = rw (h, room.1, room.3) refl
handle_congestions-room p false pool lengths room h = rw (h, room.1) refl

module _ (json : JsonCodec) (clock : ℕ → ℕ) (lengths : ℕ → List ℕ) (make : ℕ → Bytes → Packet)
    (total message_id : ℕ) (work : GeneralWorkId) (room : (i : ℕ) → MakesRoom (lengths i)) where
  -- Each block's packet can be sent.
  abbrev pub AllSendable : ℕ → List Bytes → Type 0
  AllSendable index [] = Unit {0}
  AllSendable index (b ∷ rest) = Sendable json work (make index b) × AllSendable (suc index) rest

  abbrev pub datagrams :
      (index : ℕ) (blocks : List Bytes) → AllSendable index blocks → List Datagram
  datagrams index [] s = []
  datagrams index (b ∷ rest) (s, more) =
      record { payload = s.bytes; to = (make index b).sender_ip_port }
      ∷ datagrams (suc index) rest more

  added :
      (p : Packet) (s : Sendable json work p) (now : ℕ) (pool : Pool)
      → (after : Pool) × (add_transaction json s.sent message_id now pool
          ≡ ok (after, s.sent, record { payload = s.bytes; to = p.sender_ip_port } ∷ []))
        × (after.failed ≡ pool.failed)
  unfolding add_transaction
  added p s now pool =
      let (same_key, _, same_address) = encode-work_id json p s.sent s.bytes s.encodes in
      (
        if has s.key pool.finished then pool else record pool {
          transactions = put s.key (running (new s.sent message_id now)) pool.transactions;
        },
        rw (encode-encode json p s.sent s.bytes s.encodes, same_key ∙ s.keyed, same_address),
        elim (Bool-cases (has s.key pool.finished)) [ inl e ↦ rw e | inr e ↦ rw e ],
      )

  one_round :
      (index : ℕ) (b : Bytes) (rest : List Bytes) (pool after : Pool) (sent ds : List Datagram)
      (s : Sendable json work (make index b))
      → handle_congestions s.sent (index == total) pool (lengths index) ≡ some false
      → add_transaction json s.sent message_id (clock index) pool ≡ ok (after, s.sent, ds)
      → send_packets json clock lengths make total message_id index (b ∷ rest) pool sent
        ≡ send_packets json clock lengths make total message_id (suc index) rest after (sent ++ ds)
  unfolding send_packets
  one_round index b rest pool after sent ds s h a = rw (s.encodes, h, a, send_packets) refl

  -- Where both waits of the congestion check end at every block and the work has not failed, the loop over blocks whose
  -- packets can be sent ends with everything sent: one datagram for each block, in their order, to the
  -- address of its packet.
  pub send_packets-all_sent :
      (blocks : List Bytes) (index : ℕ) (pool : Pool) (sent : List Datagram)
      (s : AllSendable index blocks)
      → has work pool.failed ≡ false
      → (after : Pool) × (send_packets json clock lengths make total message_id index blocks pool
            sent
          ≡ (after, sent ++ datagrams index blocks s, ok all_sent))
        × (after.failed ≡ pool.failed)
  unfolding send_packets
  send_packets-all_sent [] index pool sent s h = (pool, rw append-nil refl, refl)
  send_packets-all_sent (b ∷ rest) index pool sent (s, more) h =
      let p : Packet = make index b in
      let (_, same_work, _) = encode-work_id json p s.sent s.bytes s.encodes in
      let fine : has (general_work_id s.sent) pool.failed ≡ false = rw (same_work ∙ s.of_work) h in
      let (after, e, f) = added p s (clock index) pool in
      let (final, e', f') =
        send_packets-all_sent rest (suc index) after
          (sent ++ record { payload = s.bytes; to = p.sender_ip_port } ∷ []) more (rw f h) in
      (
        final,
        one_round index b rest pool after sent _ s
              (handle_congestions-room s.sent (index == total) pool (lengths index) (room index)
                fine)
              e
            ∙ e'
            ∙ ap (λ l. (final, l, ok all_sent))
                (append_assoc sent (record { payload = s.bytes; to = p.sender_ip_port } ∷ [])
                  (datagrams (suc index) rest more)),
        f' ∙ f,
      )
