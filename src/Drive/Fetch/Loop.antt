-- ===== src/Drive/Fetch/Loop.antt =====
-- The loop of split_on_paths_and_send: where the congestion check lets every response through, each
-- path is sent once, in their order.
use coap_share_drive.Base.{
  ℕ, suc, ◌+◌, ◌-◌, ◌^◌, ◌<◌, ◌≤◌, ◌==◌, ◌≡◌, refl, false, some, List, [], ◌∷◌, ◌++◌, append_assoc,
  append-nil, ◌∙◌, ap, inl, inr, Bool-cases, if◌then◌else◌, arith, length,
}
use coap_share_drive.Base.Eq.{nat_eq}
use coap_share_drive.Base.Outcome.{ok}
use coap_share_drive.Base.Dict.{has, put}
use coap_share_drive.Packet.{Packet, get_option_code, general_work_id}
use coap_share_drive.Packet.Keys.{work_id_eq, general_work_id_eq}
use coap_share_drive.Packet.Value.{Doc}
use coap_share_drive.Packet.Decode.{JsonCodec}
use coap_share_drive.Packet.RoundTrip.PayloadPart.{LoadsDumps}
use coap_share_drive.Packet.Caching.{encode-work_id}
use coap_share_drive.Transaction.{Datagram, new}
use coap_share_drive.Transaction.Pool.{Pool, running, handle_congestions, add_transaction}
use coap_share_drive.Drive.Splitter.{all_sent}
use coap_share_drive.Drive.Splitter.Loop.{Sendable, MakesRoom, handle_congestions-room}
use coap_share_drive.Drive.Splitter.Paths.{send_paths}
use coap_share_drive.Drive.Fetch.Responses.{
  path_response_to, path_packet-path_response_to, path_response_to-Sendable, IsWritable,
}

abbrev pub AllWritable : JsonCodec → List Doc → Type 0
AllWritable json [] = Unit {0}
AllWritable json (d ∷ rest) = IsWritable json d × AllWritable json rest

module _ (json : JsonCodec) (request : Packet) (total : ℕ) where
  abbrev pub AllSendable : ℕ → List Doc → Type 0
  AllSendable index [] = Unit {0}
  AllSendable index (d ∷ rest) =
      Sendable json (request.sender_ip_port, request.token) (path_response_to request total index d)
      × AllSendable (suc index) rest

  abbrev pub datagrams : (index : ℕ) (docs : List Doc) → AllSendable index docs → List Datagram
  datagrams index [] s = []
  datagrams index (d ∷ rest) (s, more) =
      record { payload = s.bytes; to = (path_response_to request total index d).sender_ip_port }
      ∷ datagrams (suc index) rest more

  pub prepared :
      (law : LoadsDumps json) (index : ℕ) (docs : List Doc)
      → length request.token < 16
      → total < 2 ^ 27
      → index + length docs ≤ suc total
      → AllWritable json docs
      → AllSendable index docs
  prepared law index [] token few fits w = tt
  prepared law index (d ∷ rest) token few fits (w, more) = (
    path_response_to-Sendable json law request total index d token (omega (arith, fits)) few w,
    prepared law (suc index) rest token few (omega (arith, fits)) more,
  )

  module _ (clock : ℕ → ℕ) (lengths : ℕ → List ℕ) (room : (i : ℕ) → MakesRoom (lengths i))
      (code : get_option_code request ≡ some 23) where
    added :
        (index : ℕ) (d : Doc)
        (s : Sendable json
          (request.sender_ip_port, request.token)
          (path_response_to request total index d))
        (now : ℕ) (pool : Pool)
        → (after : Pool) × (add_transaction json
              (path_response_to request total index d)
              request.message_id
              now
              pool
            ≡ ok (
              after,
              s.sent,
              record {
                payload = s.bytes;
                to = (path_response_to request total index d).sender_ip_port;
              }
                  ∷ [],
            ))
          × (after.failed ≡ pool.failed)
    unfolding add_transaction
    added index d s now pool =
        let p : Packet = path_response_to request total index d in
        let (same_key, _, _) = encode-work_id json p s.sent s.bytes s.encodes in
        (
          if has s.key pool.finished then pool else record pool {
            transactions =
                put s.key (running (new s.sent request.message_id now)) pool.transactions;
          },
          rw (s.encodes, same_key ∙ s.keyed) refl,
          elim (Bool-cases (has s.key pool.finished)) [ inl e ↦ rw e refl | inr e ↦ rw e refl ],
        )

    one_round :
        (index : ℕ) (d : Doc) (rest : List Doc) (pool after : Pool) (sent ds : List Datagram)
        (q : Packet)
        → handle_congestions
            (path_response_to request total index d)
            (index - 1 == total)
            pool
            (lengths index)
          ≡ some false
        → add_transaction json
            (path_response_to request total index d)
            request.message_id
            (clock index)
            pool
          ≡ ok (after, q, ds)
        → send_paths json clock lengths request total index (d ∷ rest) pool sent
          ≡ send_paths json clock lengths request total (suc index) rest after (sent ++ ds)
    unfolding send_paths
    one_round index d rest pool after sent ds q h a =
        rw (path_packet-path_response_to request total index d code, h, a, send_paths) refl

    -- For a request with BLOCK2, where both waits of the congestion check end and the work has not failed: the
    -- loop over documents whose responses can be sent ends with everything sent, one datagram for each
    -- document, in their order.
    pub send_paths-all_sent :
        (docs : List Doc) (index : ℕ) (pool : Pool) (sent : List Datagram)
        (s : AllSendable index docs)
        → has (request.sender_ip_port, request.token) pool.failed ≡ false
        → (after : Pool) × (send_paths json clock lengths request total index docs pool sent
            ≡ (after, sent ++ datagrams index docs s, ok all_sent))
          × (after.failed ≡ pool.failed)
    unfolding send_paths
    send_paths-all_sent [] index pool sent s h = (pool, rw append-nil refl, refl)
    send_paths-all_sent (d ∷ rest) index pool sent (s, more) h =
        let p : Packet = path_response_to request total index d in
        let fine : has (general_work_id p) pool.failed ≡ false = rw s.of_work h in
        let (after, e, f) = added index d s (clock index) pool in
        let one : List Datagram = record { payload = s.bytes; to = p.sender_ip_port } ∷ [] in
        let (final, e', f') =
          send_paths-all_sent rest (suc index) after (sent ++ one) more (rw f h) in
        (
          final,
          one_round index d rest pool after sent one s.sent
                (handle_congestions-room p (index - 1 == total) pool (lengths index) (room index)
                  fine)
                e
              ∙ e'
              ∙ ap (λ l. (final, l, ok all_sent))
                  (append_assoc sent one (datagrams (suc index) rest more)),
          f' ∙ f,
        )
