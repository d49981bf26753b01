-- ===== src/Worker.antt =====
-- coap_core/coap_worker/coap_worker.py: a worker thread, its queue of tasks and its main loop. Task
-- models _solve_task, Resources the resources that it calls, Pool coap_worker_pool.py.
pub mod Resources
pub mod Task
pub mod Pool
use coap_share_drive.Base.{
  ℕ, ◌-◌, Bool, true, false, not, if◌then◌else◌, Option, none, some, List, [], ◌∷◌, ◌++◌, length,
}
use coap_share_drive.Base.Outcome.{Outcome, ok, err}
use coap_share_drive.Base.Dict.{Dict, has, del}
use coap_share_drive.Packet.{Packet, WorkId, work_id}
use coap_share_drive.Packet.Keys.{work_id_eq}
use coap_share_drive.Packet.Value.{bytes}
use coap_share_drive.Packet.Decode.{JsonCodec}
use coap_share_drive.Transaction.{Datagram}
use Resources.{ResourceManager}
use Task.{Done, solve_task}

-- The attributes of a CoapWorker but the dictionary of shared work, which is the pool's; `started` is
-- the start time of its timer.
pub record Worker : Type 0 where
  pub is_running : Bool
  pub heavy_work : Bool
  pub request_queue : List Packet
  pub started : ℕ

-- A worker whose timer is reset at `now`.
abbrev pub idle_worker : ℕ → Worker
idle_worker now = record {
  is_running = true;
  heavy_work = false;
  request_queue = [];
  started = now;
}

abbrev pub get_queue_size : Worker → ℕ
get_queue_size w = length w.request_queue

abbrev pub get_idle_time : ℕ → Worker → ℕ
get_idle_time now w = now - w.started

abbrev pub is_heavily_loaded : Worker → Bool
is_heavily_loaded w = w.heavy_work

abbrev pub submit_task : Packet → Worker → Worker
submit_task packet w = record w { request_queue = w.request_queue ++ packet ∷ [] }

-- CoapPacket(): the task that wakes a stopped worker up. Its payload is None, which `bytes []` stands for.
abbrev pub blank : Packet
blank = record {
  version = 0;
  message_type = 0;
  token = [];
  code = 0;
  message_id = 0;
  options = [];
  payload = bytes [];
  sender_ip_port = none;
  needs_internal_computation = false;
  encoded = [];
}

-- stop, up to the join.
unfoldable pub stop : Worker → Worker
stop w = submit_task blank (record w { is_running = false })

-- When each work id was put among the shared work.
abbrev pub SharedWork : Type 0
SharedWork = Dict WorkId ℕ

-- `if task.work_id() in self._shared_work: self._shared_work.pop(task.work_id())`
unfoldable pub forget : Packet → SharedWork → Outcome SharedWork
forget task shared = elim (work_id task) [
  | err e ↦ err e
  | ok key ↦ ok (if has key shared then del key shared else shared)
]

-- The next task, once the worker has got it: the timer is reset. Nothing where the queue is empty or
-- the worker has been stopped.
unfoldable pub take_task : ℕ → Worker → Option (Packet × Worker)
take_task now w = elim w.request_queue [
  | [] ↦ none
  | task ∷ later ↦
      if w.is_running then some (task, record w { request_queue = later; started = now }) else none
]

-- How a round of the loop ends: the thread waits for a task, the loop is left, or a task is solved.
pub data RoundEnd : Type 0 where
  waiting stopped solved : RoundEnd

pub record Round (St : Type 0) : Type 0 where
  pub worker : Worker
  pub shared_work : SharedWork
  pub state : St
  pub sent : List Datagram
  pub ended : Outcome RoundEnd

-- What follows a task. An exception leaves the loop, and so ends the thread: run catches none.
abbrev pub after_task : {St : Type 0} → Packet → Worker → SharedWork → Done St → Round St
after_task task w shared d = elim d.ended [
  | err e ↦ record {
    worker = record w { heavy_work = d.heavy_work };
    shared_work = shared;
    state = d.state;
    sent = d.sent;
    ended = err e;
  }
  | ok u ↦ record {
    worker = record w { heavy_work = d.heavy_work };
    shared_work = elim (forget task shared) [ err e ↦ shared | ok s ↦ s ];
    state = d.state;
    sent = d.sent;
    ended = elim (forget task shared) [ err e ↦ err e | ok s ↦ ok solved ];
  }
]

-- One round of the loop in run.
unfoldable pub run_round :
    {St : Type 0} → JsonCodec → ResourceManager St → ℕ → Worker → SharedWork → St → Round St
run_round json manager now w shared state = elim (take_task now w) [
  | none ↦ record {
    worker = w;
    shared_work = shared;
    state = state;
    sent = [];
    ended = ok (if w.is_running then waiting else stopped);
  }
  | some (task, w') ↦ after_task task w' shared (solve_task json manager task w'.heavy_work state)
]
