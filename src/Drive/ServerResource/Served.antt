-- ===== src/Drive/ServerResource/Served.antt =====
-- The server's resource as a worker calls it, and what a worker does with a request.
use coap_share_drive.Base.{
  ℕ, ◌<◌, ◌≡◌, refl, ◌⊎◌, inl, inr, Bool, true, false, if◌then◌else◌, Option, some, List, [], ◌∷◌,
  length, Bool-cases, ◌≢◌, ◌∙◌, sym, subst,
}
use coap_share_drive.Base.Eq.{nat_eq, =?_refl}
use coap_share_drive.Base.Outcome.{Outcome, ok, err, out_of_fuel}
use coap_share_drive.Base.Dict.{has, del, has-del}
use coap_share_drive.Bytes.{Text}
use coap_share_drive.Packet.{Packet, Address, WorkId, work_id}
use coap_share_drive.Packet.Keys.{work_id_eq}
use coap_share_drive.Packet.Decode.{JsonCodec}
use coap_share_drive.Packet.RoundTrip.PayloadPart.{LoadsDumps}
use coap_share_drive.Templates.{Template, bad_request}
use coap_share_drive.Transaction.{Datagram}
use coap_share_drive.Worker.{Worker, SharedWork, run_round, take_task, forget, after_task, solved}
use coap_share_drive.Worker.Resources.{Resource, ResourceManager}
use coap_share_drive.Worker.Task.{Done, solve_task, is_given, lightly}
use coap_share_drive.Worker.Task.Dispatch.{solve_task-dispatch, dispatch-post, dispatch-delete}
use coap_share_drive.Drive.Assembler.{Assembler}
use coap_share_drive.Drive.Splitter.{all_sent, refused, waiting}
use coap_share_drive.Drive.ServerResource.{
  Os, Served, handle_get, handle_put, handle_fetch, handle_internal, handle_response,
}
use coap_share_drive.Drive.ServerResource.Changes.{handle_post, handle_delete}
use coap_share_drive.Drive.ServerResource.Replies.{
  IsReply, Settled, handle_post-Settled, handle_delete-Settled,
}

-- A handler that still waits has not come back.
abbrev pub returned : Served → Assembler × List Datagram × Outcome (Unit {0})
returned (a, sent, ok all_sent) = (a, sent, ok tt)
returned (a, sent, ok refused) = (a, sent, ok tt)
returned (a, sent, ok waiting) = (a, sent, err out_of_fuel)
returned (a, sent, err e) = (a, sent, err e)

-- The resource of the server with this name.
abbrev pub server_resource : JsonCodec → Os → (ℕ → ℕ) → (ℕ → List ℕ) → Text → Resource Assembler
server_resource json os clock lengths name = record {
  name = name;
  handle_get = λ request a. returned (handle_get json os clock lengths request a);
  handle_put = λ request a. returned (handle_put json os request a);
  handle_post = λ request a. returned (handle_post json os request a);
  handle_delete = λ request a. returned (handle_delete json os request a);
  handle_fetch = λ request a. returned (handle_fetch json os clock lengths name request a);
  handle_internal = λ request a. returned (handle_internal json os request a);
  handle_response = λ request a. returned (handle_response json os (clock 0) request a);
}

-- A worker with the server's resource as the default one.
module _ (json : JsonCodec) (os : Os) (clock : ℕ → ℕ) (lengths : ℕ → List ℕ) (name : Text)
    (others : List (Resource Assembler)) where
  abbrev pub server_manager : ResourceManager Assembler
  server_manager = record {
    resources = others;
    default_resource = some (server_resource json os clock lengths name);
  }

  module _ (law : LoadsDumps json) (request : Packet) (short : length request.token < 16)
      (from : Option Address) (a : Assembler) where
    Settled-Done :
        (heavy : Bool) (served : Served) (s : Settled json law request short from a served)
        → lightly heavy (returned served)
          ≡ record { heavy_work = heavy; state = s.drive; sent = s.datagram ∷ []; ended = ok tt }
    Settled-Done heavy served s = rw s.ends refl

    -- The worker's task is done with one reply.
    pub record Answered (done : Done Assembler) : Type 0 where
      pub template : Template
      pub datagram : Datagram
      pub one : done.sent ≡ datagram ∷ []
      pub is_reply : IsReply json law request short from template datagram
      pub unchanged : (done.state ≡ a) ⊎ (template ≢ bad_request)
      pub ended : done.ended ≡ ok tt

    done-Answered :
        (heavy : Bool) (served : Served)
        → Settled json law request short from a served
        → Answered (lightly heavy (returned served))
    done-Answered heavy served s = subst Answered (sym (Settled-Done heavy served s)) (record {
      template = s.template;
      datagram = s.datagram;
      one = refl;
      is_reply = s.is_reply;
      unchanged = s.unchanged;
      ended = refl;
    })

    solve_task-Answered :
        (heavy : Bool)
        → is_given 11 request ≡ true
        → request.needs_internal_computation ≡ false
        → (request.code ≡ 2) ⊎ (request.code ≡ 4)
        → Answered (solve_task json server_manager request heavy a)
    solve_task-Answered heavy path i (inl c) =
        subst Answered
          (sym (
            solve_task-dispatch json server_manager (server_resource json os clock lengths name)
              request heavy a path refl
            ∙ dispatch-post (server_resource json os clock lengths name) request heavy a i c))
          (done-Answered heavy (handle_post json os request a)
            (handle_post-Settled json law request short from a os))
    solve_task-Answered heavy path i (inr c) =
        subst Answered
          (sym (
            solve_task-dispatch json server_manager (server_resource json os clock lengths name)
              request heavy a path refl
            ∙ dispatch-delete (server_resource json os clock lengths name) request heavy a i c))
          (done-Answered heavy (handle_delete json os request a)
            (handle_delete-Settled json law request short from a os))

after_task-ok :
    {St : Type 0} (task : Packet) (w : Worker) (shared : SharedWork) (d : Done St) (key : WorkId)
    → d.ended ≡ ok tt
    → work_id task ≡ ok key
    → ((after_task task w shared d).ended ≡ ok solved)
      × (has key (after_task task w shared d).shared_work ≡ false)
      × ((after_task task w shared d).sent ≡ d.sent)
      × ((after_task task w shared d).state ≡ d.state)
after_task-ok task w shared d key e k =
    (rw (e, forgotten, after_task) refl, rw (e, forgotten, after_task) gone, rw e refl, rw e refl)
  where
    after : SharedWork
    after = if has key shared then del key shared else shared

    forgotten : forget task shared ≡ ok after
    forgotten = unfold forget in rw (k, forget) refl

    gone : has key after ≡ false
    gone = elim (Bool-cases (has key shared)) [
      | inl there ↦ rw (there, has-del key key shared, =?_refl key) refl
      | inr none_there ↦ rw none_there none_there
    ]

-- A worker of the server, whose next task is a POST or a DELETE with a URI path: its round ends with
-- the task solved and its work id forgotten, and with one datagram, to the sender of the request, that
-- decodes to a reply with the token and the message id of the request; a BAD_REQUEST leaves the drive
-- as it was. Whatever os.rename, shutil.move, os.remove and shutil.rmtree
-- do to the disk or raise, no exception ends the worker's thread.
pub run_round-answered :
    (json : JsonCodec) (os : Os) (clock : ℕ → ℕ) (lengths : ℕ → List ℕ) (name : Text)
    (others : List (Resource Assembler)) (request : Packet) (later : List Packet)
    (from : Option Address) (a : Assembler) (now since : ℕ) (shared : SharedWork) (key : WorkId)
    (law : LoadsDumps json) (short : length request.token < 16)
    → is_given 11 request ≡ true
    → request.needs_internal_computation ≡ false
    → (request.code ≡ 2) ⊎ (request.code ≡ 4)
    → work_id request ≡ ok key
    → let round =
        run_round json
          (server_manager json os clock lengths name others)
          now
          (record {
            is_running = true;
            heavy_work = false;
            request_queue = request ∷ later;
            started = since;
          })
          shared
          a in
      (t : Template) × (d : Datagram) × (round.ended ≡ ok solved)
      × (round.sent ≡ d ∷ [])
      × IsReply json law request short from t d
      × ((round.state ≡ a) ⊎ (t ≢ bad_request))
      × (has key round.shared_work ≡ false)
unfolding run_round take_task
run_round-answered json os clock lengths name others request later from a now since shared key law
      short path internal code k =
    let w : Worker = record {
      is_running = true;
      heavy_work = false;
      request_queue = later;
      started = now;
    } in
    let s =
      solve_task-Answered json os clock lengths name others law request short from a false path
        internal code in
    let done : Done Assembler =
      solve_task json (server_manager json os clock lengths name others) request false a in
    let (ended, gone, sent, state) = after_task-ok request w shared done key s.ended k in
    (
      s.template,
      s.datagram,
      ended,
      sent ∙ s.one,
      s.is_reply,
      subst (λ b. (b ≡ a) ⊎ (s.template ≢ bad_request)) (sym state) s.unchanged,
      gone,
    )
