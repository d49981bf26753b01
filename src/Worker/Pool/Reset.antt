-- ===== src/Worker/Pool/Reset.antt =====
-- What a reset packet brings about for the rest of its transfer.
use coap_share_drive.Base.{
  ℕ, ◌≡◌, refl, inl, inr, Bool, true, Option, some, List, [], arith, Bool-cases, ◌∙◌,
}
use coap_share_drive.Base.Eq.{nat_eq, =?_refl}
use coap_share_drive.Base.Outcome.{ok}
use coap_share_drive.Base.Dict.{has, put, has-put}
use coap_share_drive.Packet.{Packet, Address, general_work_id}
use coap_share_drive.Packet.Keys.{general_work_id_eq}
use coap_share_drive.Packet.Format.{verify_format}
use coap_share_drive.Packet.Decode.{JsonCodec}
use coap_share_drive.Transaction.Pool.{
  Pool, handle_congestions, is_overall_transaction_failed, set_overall_transaction_failure,
  finish_overall_transaction,
}
use coap_share_drive.Transaction.Pool.Failure.{handle_congestions-failed}
use coap_share_drive.Worker.Pool.{WorkerPool}
use coap_share_drive.Worker.Pool.Filter.{handle_con, handle_rst, handle_packet}
use coap_share_drive.Worker.Pool.Answers.Exchange.{handle_packet-con}

handle_packet-rst :
    (json : JsonCodec) (now : ℕ) (p : Packet) (from : Option Address) (pool : WorkerPool)
    → verify_format p ≡ true
    → p.message_type ≡ 3
    → handle_packet json now p from pool ≡ handle_rst now p pool
unfolding handle_packet
handle_packet-rst json now p from pool v t = ground arith

-- Finishing a transfer changes nothing in the failures, and has it among the finished ones.
finish_overall-kept :
    (p q : Packet) (now : ℕ) (last : Bool) (lengths : List ℕ) (pool : Pool)
    → (handle_congestions q last (finish_overall_transaction p now pool) lengths
        ≡ handle_congestions q last pool lengths)
      × (is_overall_transaction_failed q (finish_overall_transaction p now pool)
          ≡ is_overall_transaction_failed q pool)
      × (has (general_work_id p) (finish_overall_transaction p now pool).overall_finished ≡ true)
unfolding finish_overall_transaction is_overall_transaction_failed handle_congestions
finish_overall-kept p q now last lengths pool =
    elim (Bool-cases (has (general_work_id p) pool.overall_finished)) [
      | inl there ↦ rw there (refl, refl, there)
      | inr new ↦ rw new (refl, refl, rw (has-put, =?_refl (general_work_id p)) refl)
    ]

-- After a reset packet: its transfer counts as finished, the congestion check refuses each packet
-- that is still to be sent for it, whatever the load, and a confirmable packet that arrives for it is
-- neither acknowledged nor given to a worker.
pub reset-refused :
    (json : JsonCodec) (now later : ℕ) (p q : Packet) (from : Option Address) (pool : WorkerPool)
    (last : Bool) (lengths : List ℕ)
    → verify_format p ≡ true
    → p.message_type ≡ 3
    → verify_format q ≡ true
    → q.message_type ≡ 0
    → general_work_id q ≡ general_work_id p
    → (after : WorkerPool) × (handle_packet json now p from pool ≡ (after, [], ok tt))
      × (has (general_work_id p) after.transactions.overall_finished ≡ true)
      × (handle_congestions q last after.transactions lengths ≡ some true)
      × (handle_packet json later q from after ≡ (after, [], ok tt))
unfolding handle_rst
reset-refused json now later p q from pool last lengths v rst w con same =
    let failed : Pool = set_overall_transaction_failure p now pool.transactions in
    let (refuses, fails, finished) = finish_overall-kept p q now last lengths failed in
    let after : WorkerPool = record pool {
      failed_requests = put (general_work_id p) now pool.failed_requests;
      transactions = finish_overall_transaction p now failed;
    } in
    (
      after,
      handle_packet-rst json now p from pool v rst,
      finished,
      refuses ∙ handle_congestions-failed p q last now pool.transactions lengths same,
      handle_packet-con json later q from after w con ∙ ignored after (fails ∙ is_failed),
    )
  where
    is_failed :
        is_overall_transaction_failed q (set_overall_transaction_failure p now pool.transactions)
        ≡ true
    is_failed =
        unfold is_overall_transaction_failed set_overall_transaction_failure in
        rw (same, has-put, =?_refl (general_work_id p)) refl

    ignored :
        (after : WorkerPool)
        → is_overall_transaction_failed q after.transactions ≡ true
        → handle_con json later q from after ≡ (after, [], ok tt)
    ignored after h = unfold handle_con in rw (h, handle_con) refl
