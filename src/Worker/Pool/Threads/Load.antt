-- ===== src/Worker/Pool/Threads/Load.antt =====
-- How many tasks with one work id the workers have: after a submission, and after a removal.
use coap_share_drive.Base.{
  ℕ, zero, suc, ◌+◌, ◌≤◌, ◌<◌, ◌≡◌, refl, inl, inr, true, ◌&&◌, ltb, none, some, List, [], ◌∷◌,
  ◌++◌, length, get_elem?, arith, Bool-cases, length-append, ap, ◌∙◌,
}
use coap_share_drive.Packet.{Packet, WorkId}
use coap_share_drive.Packet.Keys.{work_id_eq}
use coap_share_drive.Worker.{Worker, idle_worker, submit_task, take_task, get_idle_time}
use coap_share_drive.Worker.Pool.{
  allowed_idle_time, submit_at, submit_to_chosen, choose_worker, stop_idle,
}
use coap_share_drive.Worker.Pool.Choice.{choose_worker_lem}
use coap_share_drive.Worker.Pool.Threads.{weight, times, queued}

pub take_task-queue :
    (now : ℕ) (w w' : Worker) (p : Packet) (queue : List Packet)
    → w.request_queue ≡ queue
    → take_task now w ≡ some (p, w')
    → queue ≡ p ∷ w'.request_queue
unfolding take_task
take_task-queue now w w' p [] e t = absurd (nothing (rw (e, take_task) at t))
  where
    nothing : {r : Packet × Worker} → none ≡ some r → ⊥
    nothing h = cc
take_task-queue now w w' p (task ∷ later) e t = elim (Bool-cases w.is_running) [
  | inr off ↦ absurd (nothing (rw (e, off, take_task) at t))
  | inl on ↦
      let got : (task, record w { is_running = true; request_queue = later; started = now })
          ≡ (p, w') =
        some-inj (rw (e, on, take_task) at t) in
      ap (λ r. r.0 ∷ r.1.request_queue) got
]
  where
    nothing : {r : Packet × Worker} → none ≡ some r → ⊥
    nothing h = cc

    some-inj : {q r : Packet × Worker} → some q ≡ some r → q ≡ r
    some-inj h = cc

module _ (key : WorkId) where
  pub times-append : (ps qs : List Packet) → times key (ps ++ qs) ≡ times key ps + times key qs
  times-append [] qs = omega arith
  times-append (p ∷ ps) qs = omega (arith, times-append ps qs)

  pub times-around :
      (ps qs : List Packet) (p : Packet)
      → times key (ps ++ p ∷ qs) ≡ weight key p + times key (ps ++ qs)
  times-around ps qs p = omega (arith, times-append ps (p ∷ qs), times-append ps qs)

  -- The tasks of the workers, counted.
  unfoldable pub load : List Worker → ℕ
  load ws = times key (queued ws)

  pub load-nil : load [] ≡ 0
  unfolding load
  load-nil = refl

  pub load-cons :
      (w : Worker) (ws : List Worker) → load (w ∷ ws) ≡ times key w.request_queue + load ws
  unfolding load
  load-cons w ws = times-append w.request_queue (queued ws)

  pub load-append : (vs ws : List Worker) → load (vs ++ ws) ≡ load vs + load ws
  load-append [] ws = unfold load in omega arith
  load-append (v ∷ vs) ws = omega (arith, load-cons v (vs ++ ws), load-cons v vs, load-append vs ws)

  load-submit_at :
      (i : ℕ) (p : Packet) (ws : List Worker)
      → i < length ws
      → load (submit_at i p ws) ≡ weight key p + load ws
  unfolding submit_at
  load-submit_at i p [] h = absurd (omega (arith, h))
  load-submit_at zero p (w ∷ ws) h =
      omega (
        arith,
        load-cons (submit_task p w) ws,
        load-cons w ws,
        times-append w.request_queue (p ∷ []),
      )
  load-submit_at (suc i) p (w ∷ ws) h = omega (
    arith,
    load-cons w (submit_at i p ws),
    load-cons w ws,
    load-submit_at i p ws (omega (arith, h)),
  )

  in_range : (ws : List Worker) (i : ℕ) (w : Worker) → get_elem? ws i ≡ some w → i < length ws
  in_range [] i w h = absurd (absent h)
    where
      absent : {w : Worker} → none ≡ some w → ⊥
      absent h = cc
  in_range (v ∷ ws) zero w h = omega arith
  in_range (v ∷ ws) (suc i) w h = omega (arith, in_range ws i w h)

  pub load-submit_to_chosen :
      (now : ℕ) (p : Packet) (ws : List Worker)
      → load (submit_to_chosen now p ws) ≡ weight key p + load ws
  unfolding submit_to_chosen
  load-submit_to_chosen now p ws = elim (choose_worker_lem now ws) [
    | inl (n, l, e) ↦ rw e (
        load-submit_at (choose_worker now ws).0 p ws
          (in_range ws (choose_worker now ws).0 l.worker l.there))
    | inr (_, e) ↦ rw e (
        load-submit_at (length ws) p (ws ++ idle_worker now ∷ [])
          (omega (arith, length-append ws (idle_worker now ∷ [])))
        ∙ omega (
          arith,
          load-append ws (idle_worker now ∷ []),
          load-cons (idle_worker now) [],
          load-nil,
        ))
  ]

  -- Removal loses tasks at most.
  pub load-stop_idle :
      (now : ℕ) (kept ws : List Worker) → load (stop_idle now kept ws).0 ≤ load kept + load ws
  unfolding stop_idle
  load-stop_idle now kept [] = omega arith
  load-stop_idle now kept (w ∷ []) =
      elim (Bool-cases (ltb allowed_idle_time (get_idle_time now w) && ltb 1 (length kept + 1))) [
        | inl idle ↦ rw (idle, stop_idle) (omega arith)
        | inr busy ↦ rw (busy, stop_idle) (omega (arith, load-append kept (w ∷ [])))
      ]
  load-stop_idle now kept (w ∷ x ∷ ws) =
      elim (Bool-cases (
        ltb allowed_idle_time (get_idle_time now w) && ltb 1 (length kept + length (w ∷ x ∷ ws)))) [
          | inl idle ↦
              rw (idle, stop_idle)
                (omega (
                  arith,
                  load-stop_idle now (kept ++ x ∷ []) ws,
                  load-append kept (x ∷ []),
                  load-cons x [],
                  load-nil,
                  load-cons x ws,
                  load-cons w (x ∷ ws),
                ))
          | inr busy ↦
              rw (busy, stop_idle)
                (omega (
                  arith,
                  load-stop_idle now (kept ++ w ∷ []) (x ∷ ws),
                  load-append kept (w ∷ []),
                  load-cons w [],
                  load-nil,
                  load-cons w (x ∷ ws),
                ))
        ]
