-- ===== src/Worker/Pool/Answers/Exchange.antt =====
-- The acknowledgement, from the receiver's filter to the sender's, and what a reset packet brings about.
use coap_share_drive.Base.{
  ℕ, ◌≡◌, refl, inl, inr, true, false, Option, none, List, [], ◌∷◌, arith, Bool-cases, ap, sym, ◌∙◌,
}
use coap_share_drive.Base.Eq.{nat_eq, =?_refl}
use coap_share_drive.Base.Outcome.{ok, ◌>>=◌}
use coap_share_drive.Base.Dict.{get, has}
use coap_share_drive.Bytes.{Bytes}
use coap_share_drive.Config.Code
use coap_share_drive.Config.MessageType
use coap_share_drive.Config.OptionDelta
use coap_share_drive.Packet.{Packet, Address, WorkId, work_id, general_work_id}
use coap_share_drive.Packet.Keys.{work_id_eq, general_work_id_eq}
use coap_share_drive.Packet.Format.{verify_format}
use coap_share_drive.Packet.Decode.{JsonCodec, decode}
use coap_share_drive.Packet.Encode.{encode, sorted_items, insert_sorted}
use coap_share_drive.Packet.RoundTrip.{arrived, IsSendable, decode-encode}
use coap_share_drive.Packet.RoundTrip.PayloadPart.{LoadsDumps}
use coap_share_drive.Templates.{Template, value_with}
use coap_share_drive.Transaction.{Datagram}
use coap_share_drive.Transaction.Pool.{Pool, is_transaction_finished, is_overall_transaction_failed}
use coap_share_drive.Transaction.Pool.Acknowledgement.{finish_transaction_lem}
use coap_share_drive.Worker.Pool.{WorkerPool, mark, submit_to_chosen}
use coap_share_drive.Worker.Pool.Filter.{
  acknowledgement, send, submit_new, handle_con, handle_ack, handle_packet, handle_datagram,
}
use coap_share_drive.Worker.Pool.Answers.{
  BlockOption, unblocked, first, second, copied, acked, IsPlainAck, of_method, of_content,
  IsAcknowledged, arrived-BlockOption, acknowledgement-acked, acked-IsSendable,
}
use coap_share_drive.Worker.Pool.Answers.Keys.{work_id-acked, work_id-arrived}

verify_format-acked :
    (t : Template) (p : Packet) (here there : Option Address) (o : BlockOption p)
    → IsPlainAck t
    → (verify_format (arrived (acked t (copied p o) p here) there) ≡ true)
      × ((arrived (acked t (copied p o) p here) there).message_type ≡ 2)
unfolding verify_format sorted_items insert_sorted MessageType.is_valid Code.is_valid
    OptionDelta.is_valid acked value_with
verify_format-acked _ p here there (unblocked _ _) of_method = (refl, refl)
verify_format-acked _ p here there (first _ _ _) of_method = (refl, refl)
verify_format-acked _ p here there (second _ _ _ _) of_method = (refl, refl)
verify_format-acked _ p here there (unblocked _ _) of_content = (refl, refl)
verify_format-acked _ p here there (first _ _ _) of_content = (refl, refl)
verify_format-acked _ p here there (second _ _ _ _) of_content = (refl, refl)

handle_datagram-packet :
    (json : JsonCodec) (now : ℕ) (b : Bytes) (from : Option Address) (p : Packet)
    (pool : WorkerPool)
    → decode json b from ≡ ok p
    → handle_datagram json now (b, from) pool ≡ handle_packet json now p from pool
unfolding handle_datagram
handle_datagram-packet json now b from p pool e = rw (e, handle_datagram) refl

pub handle_packet-con :
    (json : JsonCodec) (now : ℕ) (p : Packet) (from : Option Address) (pool : WorkerPool)
    → verify_format p ≡ true
    → p.message_type ≡ 0
    → handle_packet json now p from pool ≡ handle_con json now p from pool
unfolding handle_packet
handle_packet-con json now p from pool v t = ground arith

handle_packet-ack :
    (json : JsonCodec) (now : ℕ) (p : Packet) (from : Option Address) (pool : WorkerPool)
    → verify_format p ≡ true
    → p.message_type ≡ 2
    → handle_packet json now p from pool ≡ handle_ack now p pool
unfolding handle_packet
handle_packet-ack json now p from pool v t = ground arith

submit_new-ok :
    (now : ℕ) (p : Packet) (key : WorkId) (sent : List Datagram) (pool : WorkerPool)
    → work_id p ≡ ok key
    → (after : WorkerPool) × (submit_new now p sent pool ≡ (after, sent, ok tt))
unfolding submit_new
submit_new-ok now p key sent pool w = elim (Bool-cases (has key pool.shared_work)) [
  | inl known ↦ (pool, rw (w, known, submit_new) refl)
  | inr new ↦ (
    mark key now (record pool { workers = submit_to_chosen now p pool.workers }),
    rw (w, new, submit_new) refl,
  )
]

handle_con-ok :
    (json : JsonCodec) (now : ℕ) (p ack sent : Packet) (from : Option Address) (b : Bytes)
    (key : WorkId) (pool : WorkerPool)
    → is_overall_transaction_failed p pool.transactions ≡ false
    → acknowledgement p from ≡ ack
    → encode json ack ≡ ok (b, sent)
    → work_id p ≡ ok key
    → (after : WorkerPool) × (handle_con json now p from pool
        ≡ (after, record { payload = b; to = ack.sender_ip_port } ∷ [], ok tt))
unfolding handle_con send
handle_con-ok json now p ack sent from b key pool fine a e w =
    let (after, s) =
      submit_new-ok now p key (record { payload = b; to = ack.sender_ip_port } ∷ []) pool w in
    (after, rw (fine, a, e, handle_con) (rw a s))

-- A finished acknowledgement finishes every packet with its work id.
handle_ack-ok :
    (now : ℕ) (ack p : Packet) (key : WorkId) (pool : WorkerPool)
    → work_id ack ≡ work_id p
    → work_id p ≡ ok key
    → (after : WorkerPool) × (handle_ack now ack pool ≡ (after, [], ok tt))
      × (is_transaction_finished p after.transactions ≡ ok true)
      × (get key after.transactions.transactions ≡ none)
unfolding handle_ack
handle_ack-ok now ack p key pool same w =
    let (after, e, done, gone) =
      finish_transaction_lem ack now pool.transactions key key (same ∙ w) in
    (
      record pool { transactions = after },
      rw (e, handle_ack) refl,
      is_finished ack p same after ∙ done,
      gone ∙ rw (=?_refl key) refl,
    )
  where
    is_finished :
        (q p : Packet)
        → work_id q ≡ work_id p
        → (pool : Pool) → is_transaction_finished p pool ≡ is_transaction_finished q pool
    is_finished q p h pool =
        unfold is_transaction_finished in ap (λ k. k >>= λ key. ok (has key pool.finished)) (sym h)

-- A confirmable packet, its acknowledgement, and what the sender makes of it: let the packet be a
-- method or content that can be sent, with a block option or without, whose transfer the receiver does
-- not count as failed. Then the receiver answers its datagram with one acknowledgement, and the
-- sender, once that arrives from where the packet went, counts the packet as finished and has no
-- transaction for it any more; neither filter raises.
pub acknowledged-finished :
    (json : JsonCodec) (p : Packet) (here : Option Address) (now later : ℕ) (key : WorkId)
    (receiver sender : WorkerPool)
    → LoadsDumps json
    → IsSendable json p
    → BlockOption p
    → IsAcknowledged p.code
    → p.message_type ≡ 0
    → verify_format (arrived p here) ≡ true
    → work_id p ≡ ok key
    → has (here, p.token) receiver.transactions.failed ≡ false
    → (b : Bytes) × (cached : Packet) × (reply : Bytes) × (receiver' : WorkerPool)
      × (sender' : WorkerPool) × (encode json p ≡ ok (b, cached))
      × (handle_datagram json now (b, here) receiver
          ≡ (receiver', record { payload = reply; to = here } ∷ [], ok tt))
      × (handle_datagram json later (reply, p.sender_ip_port) sender ≡ (sender', [], ok tt))
      × (is_transaction_finished p sender'.transactions ≡ ok true)
      × (get key sender'.transactions.transactions ≡ none)
unfolding acked
acknowledged-finished json p here now later key receiver sender law s o k con good w fine =
    let q : Packet = arrived p here in
    let r : BlockOption q = arrived-BlockOption p here o in
    let (b, cached, e, d) = decode-encode json p here law s in
    let (t, plain, a) = acknowledgement-acked q here r k in
    let ack : Packet = acked t (copied q r) q here in
    let (reply, sent, e', d') =
      decode-encode json ack p.sender_ip_port law
        (acked-IsSendable json t q here r plain s.token_fits) in
    let (receiver', c) =
      handle_con-ok json now q ack sent here reply (record key { address = here }) receiver
        (unfold is_overall_transaction_failed general_work_id in fine) a e'
        (work_id-arrived p here o key w) in
    let (good', type) = verify_format-acked t q here p.sender_ip_port r plain in
    let (sender', h, done, gone) =
      handle_ack-ok later (arrived ack p.sender_ip_port) p key sender
        (work_id-acked t p here o s.id_fits) w in
    (
      b,
      cached,
      reply,
      receiver',
      sender',
      e,
      handle_datagram-packet json now b here q receiver d
          ∙ handle_packet-con json now q here receiver good con
          ∙ c,
      handle_datagram-packet json later reply p.sender_ip_port (arrived ack p.sender_ip_port) sender
            d'
          ∙ handle_packet-ack json later (arrived ack p.sender_ip_port) p.sender_ip_port sender
              good' type
          ∙ h,
      done,
      gone,
    )
