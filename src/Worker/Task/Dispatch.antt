-- ===== src/Worker/Task/Dispatch.antt =====
-- coap_worker.py, _solve_task: the handler that a task gets to.
use coap_share_drive.Base.{Bool-cases, inl, inr, ◌==◌, ◌≡◌, refl, Bool, true, false, some, arith}
use coap_share_drive.Config.Code
use coap_share_drive.Packet.{Packet}
use coap_share_drive.Packet.Decode.{JsonCodec}
use coap_share_drive.Worker.Resources.{Resource, ResourceManager}
use coap_share_drive.Worker.Task.{
  solve_task, dispatch, find_resource, is_given, lightly, under_heavy_work,
}

-- A task with a URI path gets to the default resource, and so does one that is no request.
pub solve_task-dispatch :
    {St : Type 0} (json : JsonCodec) (manager : ResourceManager St) (r : Resource St)
    (request : Packet) (heavy : Bool) (state : St)
    → is_given 11 request ≡ true
    → manager.default_resource ≡ some r
    → solve_task json manager request heavy state ≡ dispatch r request heavy state
unfolding solve_task find_resource
solve_task-dispatch json manager r request heavy state path there =
    rw (path, there, solve_task, find_resource) refl

pub solve_task-dispatch_response :
    {St : Type 0} (json : JsonCodec) (manager : ResourceManager St) (r : Resource St)
    (response : Packet) (heavy : Bool) (state : St)
    → Code.is_method response.code ≡ false
    → manager.default_resource ≡ some r
    → solve_task json manager response heavy state ≡ dispatch r response heavy state
unfolding solve_task find_resource
solve_task-dispatch_response json manager r response heavy state other there =
    elim (Bool-cases (is_given 11 response)) [
      | inl e ↦ solve_task-dispatch json manager r response heavy state e there
      | inr e ↦ rw (e, other, there, solve_task, find_resource) refl
    ]

-- A task of this side gets to handle_internal.
pub dispatch-internal :
    {St : Type 0} (r : Resource St) (request : Packet) (heavy : Bool) (state : St)
    → request.needs_internal_computation ≡ true
    → dispatch r request heavy state ≡ lightly heavy (r.handle_internal request state)
unfolding dispatch
dispatch-internal r request heavy state i = rw i refl

-- A request of another side gets to the handler of its code, a response to handle_response.
pub dispatch-get :
    {St : Type 0} (r : Resource St) (request : Packet) (heavy : Bool) (state : St)
    → request.needs_internal_computation ≡ false
    → request.code ≡ 1
    → dispatch r request heavy state ≡ under_heavy_work (r.handle_get request state)
unfolding dispatch
dispatch-get r request heavy state i c =
    let get : (request.code == 1) ≡ true = ground arith in simp (i, get)

pub dispatch-put :
    {St : Type 0} (r : Resource St) (request : Packet) (heavy : Bool) (state : St)
    → request.needs_internal_computation ≡ false
    → request.code ≡ 3
    → dispatch r request heavy state ≡ under_heavy_work (r.handle_put request state)
unfolding dispatch
dispatch-put r request heavy state i c =
    let get : (request.code == 1) ≡ false = ground arith in
    let put : (request.code == 3) ≡ true = ground arith in simp (i, get, put)

pub dispatch-post :
    {St : Type 0} (r : Resource St) (request : Packet) (heavy : Bool) (state : St)
    → request.needs_internal_computation ≡ false
    → request.code ≡ 2
    → dispatch r request heavy state ≡ lightly heavy (r.handle_post request state)
unfolding dispatch
dispatch-post r request heavy state i c =
    let get : (request.code == 1) ≡ false = ground arith in
    let put : (request.code == 3) ≡ false = ground arith in
    let post : (request.code == 2) ≡ true = ground arith in simp (i, get, put, post)

pub dispatch-delete :
    {St : Type 0} (r : Resource St) (request : Packet) (heavy : Bool) (state : St)
    → request.needs_internal_computation ≡ false
    → request.code ≡ 4
    → dispatch r request heavy state ≡ lightly heavy (r.handle_delete request state)
unfolding dispatch
dispatch-delete r request heavy state i c =
    let get : (request.code == 1) ≡ false = ground arith in
    let put : (request.code == 3) ≡ false = ground arith in
    let post : (request.code == 2) ≡ false = ground arith in
    let delete : (request.code == 4) ≡ true = ground arith in simp (i, get, put, post, delete)

pub dispatch-fetch :
    {St : Type 0} (r : Resource St) (request : Packet) (heavy : Bool) (state : St)
    → request.needs_internal_computation ≡ false
    → request.code ≡ 5
    → dispatch r request heavy state ≡ lightly heavy (r.handle_fetch request state)
unfolding dispatch
dispatch-fetch r request heavy state i c =
    let get : (request.code == 1) ≡ false = ground arith in
    let put : (request.code == 3) ≡ false = ground arith in
    let post : (request.code == 2) ≡ false = ground arith in
    let delete : (request.code == 4) ≡ false = ground arith in
    let fetch : (request.code == 5) ≡ true = ground arith in simp (i, get, put, post, delete, fetch)

pub dispatch-response :
    {St : Type 0} (r : Resource St) (request : Packet) (heavy : Bool) (state : St)
    → request.needs_internal_computation ≡ false
    → request.code ≡ 69
    → dispatch r request heavy state ≡ lightly heavy (r.handle_response request state)
unfolding dispatch
dispatch-response r request heavy state i c =
    let get : (request.code == 1) ≡ false = ground arith in
    let put : (request.code == 3) ≡ false = ground arith in
    let post : (request.code == 2) ≡ false = ground arith in
    let delete : (request.code == 4) ≡ false = ground arith in
    let fetch : (request.code == 5) ≡ false = ground arith in
    simp (i, get, put, post, delete, fetch)
