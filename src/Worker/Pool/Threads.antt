-- ===== src/Worker/Pool/Threads.antt =====
-- The threads of the pool as steps: the filter submits a packet and then marks its work id, workers
-- take tasks and solve them, idle workers are removed, in any order. Requests of this side, which
-- get a token of their own, are left out.
pub mod Load
pub mod Once
use coap_share_drive.Base.{
  ℕ, zero, suc, ◌+◌, ◌≤◌, ◌<◌, ◌≡◌, refl, inl, inr, Bool, true, false, ◌||◌, ◌&&◌, ltb,
  if◌then◌else◌, Option, none, some, List, [], ◌∷◌, ◌++◌, length, get_elem?, arith, Bool-cases,
  length-append, sym, ap, subst, ◌∙◌,
}
use coap_share_drive.Base.Eq.{◌=?◌, =?_refl}
use coap_share_drive.Base.Outcome.{Outcome, ok, err, Exc, ok-inj, Outcome-cases}
use coap_share_drive.Base.Dict.{has, put, has-put, del, has-del}
use coap_share_drive.Packet.{Packet, WorkId, work_id}
use coap_share_drive.Packet.Keys.{work_id_eq}
use coap_share_drive.Worker.{
  Worker, SharedWork, idle_worker, submit_task, take_task, forget, get_idle_time,
}
use coap_share_drive.Worker.Pool.{
  allowed_idle_time, submit_at, submit_to_chosen, choose_worker, stop_idle,
}
use coap_share_drive.Worker.Pool.Choice.{choose_worker_lem, Lightest}

-- How many of the packets have this work id.
abbrev pub is_key : WorkId → Outcome WorkId → Bool
is_key key (err e) = false
is_key key (ok k) = k =? key

abbrev pub is_task : WorkId → Packet → Bool
is_task key p = is_key key (work_id p)

abbrev pub weight : WorkId → Packet → ℕ
weight key p = if is_task key p then 1 else 0

abbrev pub times : WorkId → List Packet → ℕ
times key [] = 0
times key (p ∷ ps) = weight key p + times key ps

-- The tasks in the queues.
abbrev pub queued : List Worker → List Packet
queued [] = []
queued (w ∷ ws) = w.request_queue ++ queued ws

-- What the threads share: the workers, the tasks being solved, the shared work, and the work id that
-- the filter has submitted and not yet marked.
pub record Threads : Type 0 where
  pub workers : List Worker
  pub solving : List Packet
  pub shared_work : SharedWork
  pub submitted : Option WorkId

-- A step of one thread. `raised` is a task whose handler raises: its work id stays where it is.
pub data Step : Threads → Threads → Type 0 where
  submits :
      (s : Threads) (now : ℕ) (p : Packet) (key : WorkId)
      → work_id p ≡ ok key
      → has key s.shared_work ≡ false
      → s.submitted ≡ none
      → Step s (record s { workers = submit_to_chosen now p s.workers; submitted = some key })
  marks :
      (s : Threads) (now : ℕ) (key : WorkId)
      → s.submitted ≡ some key
      → Step s (record s { shared_work = put key now s.shared_work; submitted = none })
  takes :
      (s : Threads) (now : ℕ) (before after : List Worker) (w w' : Worker) (p : Packet)
      → s.workers ≡ before ++ w ∷ after
      → take_task now w ≡ some (p, w')
      → Step s (record s { workers = before ++ w' ∷ after; solving = p ∷ s.solving })
  solved :
      (s : Threads) (before after : List Packet) (p : Packet) (shared : SharedWork)
      → s.solving ≡ before ++ p ∷ after
      → forget p s.shared_work ≡ ok shared
      → Step s (record s { solving = before ++ after; shared_work = shared })
  raised :
      (s : Threads) (before after : List Packet) (p : Packet)
      → s.solving ≡ before ++ p ∷ after
      → Step s (record s { solving = before ++ after })
  removes : (s : Threads) (now : ℕ) → Step s (record s { workers = (stop_idle now [] s.workers).0 })

abbrev pub start : Threads
start = record { workers = []; solving = []; shared_work = []; submitted = none }

pub data Reachable : Threads → Type 0 where
  at_start : Reachable start
  then_step : (s t : Threads) → Reachable s → Step s t → Reachable t
