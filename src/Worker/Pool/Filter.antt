-- ===== src/Worker/Pool/Filter.antt =====
-- coap_core/coap_worker/coap_worker_pool.py, __coap_format_filter: what is done with a datagram that
-- arrives. The clock's readings while one datagram is handled are taken to be equal.
use coap_share_drive.Base.{ℕ, ◌==◌, not, if◌then◌else◌, Option, none, some, List, [], ◌∷◌, ◌++◌}
use coap_share_drive.Base.Eq.{nat_eq}
use coap_share_drive.Base.Outcome.{Outcome, ok, err}
use coap_share_drive.Base.Dict.{get, has, put}
use coap_share_drive.Bytes.{Bytes}
use coap_share_drive.Config.Code
use coap_share_drive.Config.MessageType
use coap_share_drive.Packet.{Packet, Address, work_id, general_work_id, get_option_code}
use coap_share_drive.Packet.Keys.{work_id_eq, general_work_id_eq}
use coap_share_drive.Packet.Decode.{JsonCodec, decode}
use coap_share_drive.Packet.Encode.{encode}
use coap_share_drive.Packet.Format.{verify_format}
use coap_share_drive.Templates
use coap_share_drive.Templates.{Template, empty_ack, success_continue_ack, internal_error}
use coap_share_drive.Transaction.{Datagram}
use coap_share_drive.Transaction.Pool.{
  is_overall_transaction_failed, finish_transaction, set_overall_transaction_failure,
  finish_overall_transaction,
}
use coap_share_drive.Worker.Pool.{WorkerPool, mark, submit_to_chosen}

abbrev pub Handled : Type 0
Handled = WorkerPool × List Datagram × Outcome (Unit {0})

-- A packet whose work id is not among the shared work goes to a worker.
unfoldable pub submit_new : ℕ → Packet → List Datagram → WorkerPool → Handled
submit_new now packet sent pool = elim (work_id packet) [
  | err e ↦ (pool, sent, err e)
  | ok key ↦ if has key pool.shared_work then (pool, sent, ok tt) else (
    mark key now (record pool { workers = submit_to_chosen now packet pool.workers }),
    sent,
    ok tt,
  )
]

-- `if packet.get_option_code(): ack.options[…] = packet.options[…]`
abbrev pub with_block : Packet → Packet → Packet
with_block packet ack = elim (get_option_code packet) [
  | none ↦ ack
  | some code ↦ elim (get code packet.options) [
    | none ↦ ack
    | some v ↦ record ack { options = put code v ack.options }
  ]
]

-- The acknowledgement of a confirmable packet, addressed to its sender.
unfoldable pub acknowledgement : Packet → Option Address → Packet
acknowledgement packet address =
    let made : Template → Packet =
      λ t. Templates.value_with t packet.token packet.message_id address in
    let ack =
      (if Code.is_method packet.code
        then with_block packet (made empty_ack)
        else if packet.code == Code.value Code.success_content
        then with_block packet (made success_continue_ack)
        else made empty_ack) in
    record ack { sender_ip_port = packet.sender_ip_port }

-- CoapPacket.send: what goes out, and the packet with its bytes cached
unfoldable pub send : JsonCodec → Packet → Outcome (Datagram × Packet)
send json packet = elim (encode json packet) [
  | err e ↦ err e
  | ok (payload, sent) ↦ ok (record { payload = payload; to = packet.sender_ip_port }, sent)
]

unfoldable pub handle_con : JsonCodec → ℕ → Packet → Option Address → WorkerPool → Handled
handle_con json now packet address pool =
    if is_overall_transaction_failed packet pool.transactions
    then (pool, [], ok tt)
    else (elim (send json (acknowledgement packet address)) [
      | err e ↦ (pool, [], err e)
      | ok (datagram, _) ↦ submit_new now packet (datagram ∷ []) pool
    ])

unfoldable pub handle_ack : ℕ → Packet → WorkerPool → Handled
handle_ack now packet pool = elim (finish_transaction packet now pool.transactions) [
  | err e ↦ (pool, [], err e)
  | ok transactions ↦ (record pool { transactions = transactions }, [], ok tt)
]

unfoldable pub handle_rst : ℕ → Packet → WorkerPool → Handled
handle_rst now packet pool = (
  record pool {
    failed_requests = put (general_work_id packet) now pool.failed_requests;
    transactions =
        finish_overall_transaction packet now
          (set_overall_transaction_failure packet now pool.transactions);
  },
  [],
  ok tt,
)

-- INTERNAL_ERROR, sent by `send` and once more by `sendto`.
unfoldable pub refuse : JsonCodec → Packet → Option Address → WorkerPool → Handled
refuse json packet address pool =
    let reply = Templates.value_with internal_error packet.token packet.message_id address in
    elim (send json (record reply { code = Code.value Code.server_error_internal_server_error })) [
      | err e ↦ (pool, [], err e)
      | ok (datagram, sent) ↦ elim (encode json sent) [
        | err e ↦ (pool, datagram ∷ [], err e)
        | ok (again, _) ↦
            (pool, datagram ∷ record { payload = again; to = packet.sender_ip_port } ∷ [], ok tt)
      ]
    ]

-- What the filter does with a packet, by its type.
unfoldable pub handle_packet : JsonCodec → ℕ → Packet → Option Address → WorkerPool → Handled
handle_packet json now packet address pool =
    if not (verify_format packet)
    then refuse json packet address pool
    else if packet.message_type == MessageType.value MessageType.con
    then handle_con json now packet address pool
    else if packet.message_type == MessageType.value MessageType.non
    then submit_new now packet [] pool
    else if packet.message_type == MessageType.value MessageType.ack
    then handle_ack now packet pool
    else if packet.message_type == MessageType.value MessageType.rst
    then handle_rst now packet pool
    else (pool, [], ok tt)

-- One round of the filter.
unfoldable pub handle_datagram : JsonCodec → ℕ → Bytes × Option Address → WorkerPool → Handled
handle_datagram json now (datagram, address) pool = elim (decode json datagram address) [
  | err e ↦ (pool, [], err e)
  | ok packet ↦ handle_packet json now packet address pool
]

-- The rounds of the filter over the datagrams that arrive; an exception ends its thread.
abbrev pub then_rest : Handled → (WorkerPool → Handled) → Handled
then_rest (pool, sent, err e) rest = (pool, sent, err e)
then_rest (pool, sent, ok u) rest =
    let (pool', more, ended) = rest pool in (pool', sent ++ more, ended)

unfoldable pub format_filter : JsonCodec → ℕ → List (Bytes × Option Address) → WorkerPool → Handled
format_filter json now [] pool = (pool, [], ok tt)
format_filter json now (d ∷ ds) pool =
    then_rest (handle_datagram json now d pool) (format_filter json now ds)
