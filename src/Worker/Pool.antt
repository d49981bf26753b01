-- ===== src/Worker/Pool.antt =====
-- coap_core/coap_worker/coap_worker_pool.py: the choice of a worker, the removal of idle ones, and the
-- requests of this side. Filter has what is done with the datagrams that arrive.
pub mod Filter
pub mod Idle
pub mod Transactions
pub mod Choice
pub mod Threads
pub mod Answers
pub mod Reset
use coap_share_drive.Base.{
  ℕ, zero, suc, ltb, leb, ◌+◌, ◌==◌, Bool, true, false, not, ◌&&◌, if◌then◌else◌, Option, none,
  some, List, [], ◌∷◌, ◌++◌, length,
}
use coap_share_drive.Base.Eq.{nat_eq}
use coap_share_drive.Base.Outcome.{Outcome, ok, err}
use coap_share_drive.Base.Dict.{Dict, get, has, put}
use coap_share_drive.Bytes.{Bytes}
use coap_share_drive.Config.Code
use coap_share_drive.Config.MessageType
use coap_share_drive.Config.Token.{gen_token}
use coap_share_drive.Packet.{
  Packet, Address, WorkId, GeneralWorkId, work_id, general_work_id, get_option_code,
}
use coap_share_drive.Packet.Keys.{work_id_eq, general_work_id_eq}
use coap_share_drive.Packet.Decode.{JsonCodec, decode}
use coap_share_drive.Packet.Encode.{encode}
use coap_share_drive.Packet.Format.{verify_format}
use coap_share_drive.Templates
use coap_share_drive.Templates.{Template, empty_ack, success_continue_ack, internal_error}
use coap_share_drive.Transaction.{Datagram}
use coap_share_drive.Transaction.Pool.{
  Pool, is_overall_transaction_failed, finish_transaction, set_overall_transaction_failure,
  finish_overall_transaction, add_transaction,
}
use coap_share_drive.Worker.{
  Worker, SharedWork, idle_worker, get_queue_size, get_idle_time, is_heavily_loaded, submit_task,
  stop,
}

-- COAP_WORKER_QUEUE_SIZE and COAP_ALLOWED_WORKER_IDLE
abbrev pub max_queue_size : ℕ
max_queue_size = 20000

abbrev pub allowed_idle_time : ℕ
allowed_idle_time = 60

-- The attributes that the handling of packets changes; `transactions` is the CoapTransactionPool,
-- which is a singleton.
pub record WorkerPool : Type 0 where
  pub shared_work : SharedWork
  pub failed_requests : Dict GeneralWorkId ℕ
  pub workers : List Worker
  pub transactions : Pool

abbrev pub is_available : Worker → Bool
is_available w = not (is_heavily_loaded w) && ltb (get_queue_size w) max_queue_size

-- min over the available workers: the first with the shortest queue, by its place, and its size.
abbrev pub in_tail : Option (ℕ × ℕ) → Option (ℕ × ℕ)
in_tail none = none
in_tail (some (i, n)) = some (suc i, n)

abbrev pub shorter : ℕ → Option (ℕ × ℕ) → Option (ℕ × ℕ)
shorter size none = some (0, size)
shorter size (some (i, n)) = if leb size n then some (0, size) else some (suc i, n)

unfoldable pub lightest : List Worker → Option (ℕ × ℕ)
lightest [] = none
lightest (w ∷ ws) =
    let rest = lightest ws in
    if is_available w then shorter (get_queue_size w) rest else in_tail rest

-- The place of the chosen worker, and the workers with a new one where none is available.
unfoldable pub choose_worker : ℕ → List Worker → ℕ × List Worker
choose_worker now ws = elim (lightest ws) [
  | none ↦ (length ws, ws ++ idle_worker now ∷ [])
  | some (i, n) ↦ (i, ws)
]

-- submit_task on the worker at this place.
unfoldable pub submit_at : ℕ → Packet → List Worker → List Worker
submit_at i task [] = []
submit_at zero task (w ∷ ws) = submit_task task w ∷ ws
submit_at (suc i) task (w ∷ ws) = w ∷ submit_at i task ws

-- `self.__choose_worker().submit_task(packet)`
unfoldable pub submit_to_chosen : ℕ → Packet → List Worker → List Worker
submit_to_chosen now task ws = submit_at (choose_worker now ws).0 task (choose_worker now ws).1

-- `self._shared_work[packet.work_id()] = time.time()`
abbrev pub mark : WorkId → ℕ → WorkerPool → WorkerPool
mark key now pool = record pool { shared_work = put key now pool.shared_work }

-- One pass of __handle_workers over the list while it takes workers out of it: the one that follows a
-- worker taken out is not looked at. The workers kept, and those stopped.
unfoldable pub stop_idle : ℕ → List Worker → List Worker → List Worker × List Worker
stop_idle now kept [] = (kept, [])
stop_idle now kept (w ∷ []) =
    if ltb allowed_idle_time (get_idle_time now w) && ltb 1 (length kept + 1)
    then (kept, stop w ∷ [])
    else (kept ++ w ∷ [], [])
stop_idle now kept (w ∷ x ∷ ws) =
    let passed = stop_idle now (kept ++ x ∷ []) ws in
    let stays = stop_idle now (kept ++ w ∷ []) (x ∷ ws) in
    if ltb allowed_idle_time (get_idle_time now w) && ltb 1 (length kept + length (w ∷ x ∷ ws))
    then (passed.0, stop w ∷ passed.1)
    else stays

-- _handle_internal_task: a request of this side. `calls` is the state of gen_token.
unfoldable pub handle_internal_task :
    JsonCodec → ℕ → Packet → ℕ → WorkerPool → WorkerPool × ℕ × Outcome (Packet × List Datagram)
handle_internal_task json now task calls pool = elim (gen_token calls).0 [
  | err e ↦ (pool, (gen_token calls).1, err e)
  | ok token ↦
      (let task' : Packet = record task { token = token } in
        let pool' =
          (if task'.needs_internal_computation
            then record pool { workers = pool.workers ++ submit_task task' (idle_worker now) ∷ [] }
            else pool) in
        elim (work_id task') [
          | err e ↦ (pool', (gen_token calls).1, err e)
          | ok key ↦ elim (add_transaction json task' 0 now pool'.transactions) [
            | err e ↦ (mark key now pool', (gen_token calls).1, err e)
            | ok (transactions, sent, datagrams) ↦ (
              mark key now (record pool' { transactions = transactions }),
              (gen_token calls).1,
              ok (sent, datagrams),
            )
          ]
        ])
]
