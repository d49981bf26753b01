-- ===== src/Worker/Pool/Threads/Once.antt =====
-- No work id is that of two tasks.
use coap_share_drive.Base.{
  ℕ, ◌+◌, ◌≤◌, ◌≡◌, refl, inl, inr, Bool, true, false, ◌||◌, if◌then◌else◌, Option, none, some,
  List, [], ◌∷◌, ◌++◌, arith, Bool-cases, ap, subst, ◌∙◌,
}
use coap_share_drive.Base.Eq.{◌=?◌}
use coap_share_drive.Base.Outcome.{ok, err, Exc, ok-inj, Outcome-cases}
use coap_share_drive.Base.Dict.{has, put, has-put, del, has-del}
use coap_share_drive.Packet.{Packet, WorkId, work_id}
use coap_share_drive.Packet.Keys.{work_id_eq}
use coap_share_drive.Worker.{Worker, SharedWork, take_task, forget}
use coap_share_drive.Worker.Pool.{submit_to_chosen}
use coap_share_drive.Worker.Pool.Threads.{
  is_key, weight, times, queued, Threads, Step, submits, marks, takes, solved, raised, removes,
  Reachable, at_start, then_step,
}
use coap_share_drive.Worker.Pool.Threads.Load.{
  times-append, times-around, load, load-nil, load-submit_to_chosen, load-stop_idle, load-append,
  load-cons, take_task-queue,
}

module _ (key : WorkId) where
  -- What a work id may have: one task where it is among the shared work, or about to be.
  pending : Option WorkId → Bool
  pending none = false
  pending (some k) = k =? key

  room : SharedWork → Option WorkId → ℕ
  room shared submitted = if has key shared || pending submitted then 1 else 0

  abbrev IsBounded : Threads → Type 0
  IsBounded s = load key s.workers + times key s.solving ≤ room s.shared_work s.submitted

  weight-ok :
      (p : Packet) (k : WorkId) → work_id p ≡ ok k → weight key p ≡ (if k =? key then 1 else 0)
  weight-ok p k w = ap (λ o. if is_key key o then 1 else 0) w

  weight-same : (p : Packet) (k : WorkId) → work_id p ≡ ok k → (k =? key) ≡ true → weight key p ≡ 1
  weight-same p k w e = weight-ok p k w ∙ rw e refl

  weight-other :
      (p : Packet) (k : WorkId) → work_id p ≡ ok k → (k =? key) ≡ false → weight key p ≡ 0
  weight-other p k w e = weight-ok p k w ∙ rw e refl

  after_submit :
      (n : ℕ) (p : Packet) (k : WorkId) (shared : SharedWork)
      → work_id p ≡ ok k
      → has k shared ≡ false
      → n ≤ room shared none
      → weight key p + n ≤ room shared (some k)
  unfolding room pending
  after_submit n p k shared w new h = elim (Bool-cases (k =? key)) [
    | inl same ↦
        let none_yet : has key shared ≡ false =
          subst (λ j. has j shared ≡ false) ((work_id_eq.beq_iff k key).0 same) new in
        ground (arith, h, none_yet, same, weight-same p k w same)
    | inr other ↦ ground (arith, h, other, weight-other p k w other)
  ]

  after_mark :
      (n now : ℕ) (k : WorkId) (shared : SharedWork)
      → n ≤ room shared (some k)
      → n ≤ room (put k now shared) none
  unfolding room pending
  after_mark n now k shared h = elim (Bool-cases (k =? key)) [
    | inl same ↦ ground (arith, h, has-put k key now shared)
    | inr other ↦ ground (arith, h, has-put k key now shared)
  ]

  after_forget :
      (n : ℕ) (p : Packet) (shared shared' : SharedWork) (submitted : Option WorkId)
      → forget p shared ≡ ok shared'
      → weight key p + n ≤ room shared submitted
      → n ≤ room shared' submitted
  unfolding room forget
  after_forget n p shared shared' submitted f h = elim (Outcome-cases (work_id p)) [
    | inr (x, w) ↦ absurd (refused (rw (w, forget) at f))
    | inl (k, w) ↦
        let e : (if has k shared then del k shared else shared) ≡ shared' =
          ok-inj (rw (w, forget) at f) in
        subst (λ d. n ≤ room d submitted) e
          (elim (Bool-cases (has k shared)) [
            | inr gone ↦ rw gone (omega (arith, h))
            | inl here ↦ rw here (elim (Bool-cases (k =? key)) [
              | inl same ↦
                  let one : weight key p ≡ 1 = weight-same p k w same in ground (arith, h, one)
              | inr other ↦ ground (arith, h, has-del k key shared, other, weight-other p k w other)
            ])
          ])
  ]
    where
      refused : {x : Exc} {d : SharedWork} → err x ≡ ok d → ⊥
      refused p = cc

  room-le : (shared : SharedWork) (submitted : Option WorkId) → room shared submitted ≤ 1
  unfolding room
  room-le shared submitted = ground arith

  -- A worker that takes a task passes it on to those being solved.
  load-take :
      (now : ℕ) (before after : List Worker) (w w' : Worker) (p : Packet)
      → take_task now w ≡ some (p, w')
      → load key (before ++ w ∷ after) ≡ weight key p + load key (before ++ w' ∷ after)
  load-take now before after w w' p t = omega (
    arith,
    load-append key before (w ∷ after),
    load-append key before (w' ∷ after),
    load-cons key w after,
    load-cons key w' after,
    times-take_task,
  )
    where
      times-take_task : times key w.request_queue ≡ weight key p + times key w'.request_queue
      times-take_task = ap (times key) (take_task-queue now w w' p w.request_queue refl t)

  Step-IsBounded : {s t : Threads} → Step s t → IsBounded s → IsBounded t
  Step-IsBounded (submits s now p k w new free) h =
      let e : load key (submit_to_chosen now p s.workers) ≡ weight key p + load key s.workers =
        load-submit_to_chosen key now p s.workers in
      omega (
        arith,
        e,
        after_submit (load key s.workers + times key s.solving) p k s.shared_work w new
            (subst (λ o. load key s.workers + times key s.solving ≤ room s.shared_work o) free h),
      )
  Step-IsBounded (marks s now k e) h =
      after_mark (load key s.workers + times key s.solving) now k s.shared_work
        (subst (λ o. load key s.workers + times key s.solving ≤ room s.shared_work o) e h)
  Step-IsBounded (takes s now before after w w' p e t) h =
      omega (arith, h, load-take now before after w w' p t, ap (load key) e)
  Step-IsBounded (solved s before after p shared e f) h =
      after_forget (load key s.workers + times key (before ++ after)) p s.shared_work shared
        s.submitted f (omega (arith, h, ap (times key) e, times-around key before after p))
  Step-IsBounded (raised s before after p e) h =
      omega (arith, h, ap (times key) e, times-around key before after p)
  Step-IsBounded (removes s now) h =
      omega (arith, h, load-stop_idle key now [] s.workers, load-nil key)

  Reachable-IsBounded : {s : Threads} → Reachable s → IsBounded s
  Reachable-IsBounded at_start = omega (arith, load-nil key)
  Reachable-IsBounded (then_step s t r one) = Step-IsBounded one (Reachable-IsBounded r)

-- However the filter, the workers and the removal of idle workers interleave, and whether or not a
-- handler raises: no work id is that of two tasks that are queued or being solved.
pub Reachable-once :
    (s : Threads) (key : WorkId) → Reachable s → times key (queued s.workers ++ s.solving) ≤ 1
unfolding load
Reachable-once s key r = omega (
  arith,
  times-append key (queued s.workers) s.solving,
  room-le key s.shared_work s.submitted,
  Reachable-IsBounded key r,
)
