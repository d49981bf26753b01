-- ===== src/Worker/Task.antt =====
-- coap_core/coap_worker/coap_worker.py, _solve_task: which handler of which resource gets a task.
pub mod Dispatch
use coap_share_drive.Base.{
  ℕ, ◌==◌, Bool, true, false, not, ◌&&◌, if◌then◌else◌, Option, none, some, List, [], ◌∷◌,
}
use coap_share_drive.Base.Eq.{nat_eq}
use coap_share_drive.Base.Outcome.{Outcome, ok, err, attribute_error, type_error, ◌>>=◌}
use coap_share_drive.Base.Dict.{get}
use coap_share_drive.Bytes.{Text}
use coap_share_drive.Config.Code
use coap_share_drive.Config.OptionDelta
use coap_share_drive.Packet.{Packet, option_at}
use coap_share_drive.Packet.Value.{OptionValue, str, int, bytes, nothing, option_truth}
use coap_share_drive.Packet.Decode.{JsonCodec}
use coap_share_drive.Packet.Encode.{encode}
use coap_share_drive.Templates
use coap_share_drive.Templates.{bad_request}
use coap_share_drive.Transaction.{Datagram}
use coap_share_drive.Worker.Resources.{
  Resource, ResourceManager, get_resource, get_default_resource,
}

-- The heavy mark of the worker, the state, what was sent, and how the task ended.
pub record Done (St : Type 0) : Type 0 where
  pub heavy_work : Bool
  pub state : St
  pub sent : List Datagram
  pub ended : Outcome (Unit {0})

-- `bool(task.options.get(key))`
abbrev pub is_given : ℕ → Packet → Bool
is_given key task = elim (get key task.options) [ none ↦ false | some v ↦ option_truth v ]

-- `value.split("/")[0]`
abbrev pub first_part : Text → Text
first_part [] = []
first_part (c ∷ cs) = if c == 47 then [] else c ∷ first_part cs

abbrev pub resource_name : OptionValue → Outcome Text
resource_name (str t) = ok (first_part t)
resource_name (int n) = err attribute_error
resource_name (bytes b) = err type_error
resource_name nothing = err attribute_error

-- The default resource, or else the one that the path names.
unfoldable pub find_resource :
    {St : Type 0} → ResourceManager St → Packet → Outcome (Option (Resource St))
find_resource manager task = elim (get_default_resource manager) [
  | some r ↦ ok (some r)
  | none ↦ do
    v ← option_at (OptionDelta.value OptionDelta.uri_path) task
    name ← resource_name v
    ok (get_resource name manager)
]

-- BAD_REQUEST to the sender of the task.
unfoldable pub reset : {St : Type 0} → JsonCodec → Packet → Bool → St → Done St
reset json task heavy state =
    elim (encode json (Templates.value_with bad_request task.token task.message_id none)) [
      | err e ↦ record { heavy_work = heavy; state = state; sent = []; ended = err e }
      | ok (payload, _) ↦ record {
        heavy_work = heavy;
        state = state;
        sent = record { payload = payload; to = task.sender_ip_port } ∷ [];
        ended = ok tt;
      }
    ]

abbrev pub lightly : {St : Type 0} → Bool → St × List Datagram × Outcome (Unit {0}) → Done St
lightly heavy (state, sent, ended) = record {
  heavy_work = heavy;
  state = state;
  sent = sent;
  ended = ended;
}

-- `with self.heavy_work()`: the generator has no `finally`, so an exception leaves the mark.
abbrev pub under_heavy_work : {St : Type 0} → St × List Datagram × Outcome (Unit {0}) → Done St
under_heavy_work (state, sent, ok u) = record {
  heavy_work = false;
  state = state;
  sent = sent;
  ended = ok u;
}
under_heavy_work (state, sent, err e) = record {
  heavy_work = true;
  state = state;
  sent = sent;
  ended = err e;
}

-- The handler that the code of the task stands for.
unfoldable pub dispatch : {St : Type 0} → Resource St → Packet → Bool → St → Done St
dispatch resource task heavy state =
    if task.needs_internal_computation
    then lightly heavy (resource.handle_internal task state)
    else if task.code == Code.value Code.get
    then under_heavy_work (resource.handle_get task state)
    else if task.code == Code.value Code.put
    then under_heavy_work (resource.handle_put task state)
    else if task.code == Code.value Code.post
    then lightly heavy (resource.handle_post task state)
    else if task.code == Code.value Code.delete
    then lightly heavy (resource.handle_delete task state)
    else if task.code == Code.value Code.fetch
    then lightly heavy (resource.handle_fetch task state)
    else lightly heavy (resource.handle_response task state)

unfoldable pub solve_task :
    {St : Type 0} → JsonCodec → ResourceManager St → Packet → Bool → St → Done St
solve_task json manager task heavy state =
    if not (is_given (OptionDelta.value OptionDelta.uri_path) task) && Code.is_method task.code
    then reset json task heavy state
    else (elim (find_resource manager task) [
      | err e ↦ record { heavy_work = heavy; state = state; sent = []; ended = err e }
      | ok none ↦ reset json task heavy state
      | ok (some r) ↦ dispatch r task heavy state
    ])
