-- ===== src/Worker/Pool/Idle.antt =====
-- coap_worker_pool.py, __handle_workers: what a pass over the workers stops.
use coap_share_drive.Base.{
  ℕ, ◌+◌, ◌<◌, ◌≡◌, refl, true, Bool-cases, inl, inr, ltb, ltb→lt, ap, sym, subst, ◌∙◌, ◌&&◌, List,
  [], ◌∷◌, ◌++◌, map, append-nil, append_assoc, All, arith, length,
}
use mathlib.Core.Bool.{false≢true}
use coap_share_drive.Worker.{Worker, get_idle_time, stop}
use coap_share_drive.Worker.Pool.{stop_idle, allowed_idle_time}

-- Workers that have been idle for longer than is allowed.
abbrev pub AllIdle : ℕ → List Worker → Type 0
AllIdle now = All (λ w. allowed_idle_time < get_idle_time now w)

-- Each worker of the third list is in one of the first two, in the order of the third.
pub data Split : List Worker → List Worker → List Worker → Type 0 where
  done : Split [] [] []
  to_left :
      {left right all : List Worker} (w : Worker)
      → Split left right all
      → Split (w ∷ left) right (w ∷ all)
  to_right :
      {left right all : List Worker} (w : Worker)
      → Split left right all
      → Split left (w ∷ right) (w ∷ all)

-- What the test of a pass says of a worker and of the number of workers.
is_idle :
    (now n : ℕ) (w : Worker)
    → ltb allowed_idle_time (get_idle_time now w) && ltb 1 n ≡ true
    → (allowed_idle_time < get_idle_time now w) × (1 < n)
is_idle now n w h = elim (Bool-cases (ltb allowed_idle_time (get_idle_time now w))) [
  | inl long ↦ (
    ltb→lt allowed_idle_time (get_idle_time now w) long,
    ltb→lt 1 n (ap (λ b. b && ltb 1 n) (sym long) ∙ h),
  )
  | inr short ↦ absurd (false≢true (ap (λ b. b && ltb 1 n) (sym short) ∙ h))
]

-- The outcome of a pass over these workers, with those in front that have been kept.
record Passed (now : ℕ) (kept workers : List Worker) (r : List Worker × List Worker) : Type 0 where
  left : List Worker
  taken : List Worker
  split : Split left taken workers
  kept_on : r.0 ≡ kept ++ left
  stopped : r.1 ≡ map stop taken
  idle : AllIdle now taken
  some_left : 0 < length kept + length workers → 0 < length kept + length left

kept_stays :
    {now : ℕ} {kept workers : List Worker} {r : List Worker × List Worker} (w : Worker)
    → Passed now (kept ++ w ∷ []) workers r
    → Passed now kept (w ∷ workers) r
kept_stays {kept = kept} w p = record {
  left = w ∷ p.left;
  taken = p.taken;
  split = to_left w p.split;
  kept_on = p.kept_on ∙ append_assoc kept (w ∷ []) p.left;
  stopped = p.stopped;
  idle = p.idle;
  some_left = λ h. omega arith;
}

stop_idle-Passed :
    (now : ℕ) (kept workers : List Worker) → Passed now kept workers (stop_idle now kept workers)
unfolding stop_idle
stop_idle-Passed now kept [] = record {
  left = [];
  taken = [];
  split = done;
  kept_on = rw append-nil refl;
  stopped = refl;
  idle = tt;
  some_left = λ h. h;
}
stop_idle-Passed now kept (w ∷ []) =
    elim (Bool-cases (ltb allowed_idle_time (get_idle_time now w) && ltb 1 (length kept + 1))) [
      | inl e ↦
          let (long, several) = is_idle now (length kept + 1) w e in
          rw e (record {
            left = [];
            taken = w ∷ [];
            split = to_right w done;
            kept_on = rw append-nil refl;
            stopped = refl;
            idle = (long, tt);
            some_left = λ h. omega (arith, several);
          })
      | inr e ↦ rw e (record {
        left = w ∷ [];
        taken = [];
        split = to_left w done;
        kept_on = refl;
        stopped = refl;
        idle = tt;
        some_left = λ h. h;
      })
    ]
stop_idle-Passed now kept (w ∷ x ∷ ws) =
    elim (Bool-cases
      (ltb allowed_idle_time (get_idle_time now w) && ltb 1 (length kept + length (w ∷ x ∷ ws)))) [
        | inl e ↦
            let (long, _) = is_idle now (length kept + length (w ∷ x ∷ ws)) w e in
            let p = kept_stays x (stop_idle-Passed now (kept ++ x ∷ []) ws) in
            rw e (record {
              left = p.left;
              taken = w ∷ p.taken;
              split = to_right w p.split;
              kept_on = p.kept_on;
              stopped = ap (λ l. stop w ∷ l) p.stopped;
              idle = (long, p.idle);
              some_left = λ h. p.some_left (omega arith);
            })
        | inr e ↦ rw e (kept_stays w (stop_idle-Passed now (kept ++ w ∷ []) (x ∷ ws)))
      ]

-- A pass of __handle_workers splits the list of workers: one part, in its order, is the list that it
-- leaves, the other is what it stops, and each worker of that part has been idle for longer than is
-- allowed. Where there is a worker it leaves one.
pub stop_idle-leaves_one :
    (now : ℕ) (workers : List Worker)
    → 0 < length workers
    → (taken : List Worker) × Split (stop_idle now [] workers).0 taken workers
      × ((stop_idle now [] workers).1 ≡ map stop taken)
      × AllIdle now taken
      × (0 < length (stop_idle now [] workers).0)
stop_idle-leaves_one now workers some_there =
    let p = stop_idle-Passed now [] workers in
    (
      p.taken,
      subst (λ l. Split l p.taken workers) (sym p.kept_on) p.split,
      p.stopped,
      p.idle,
      subst (λ l. 0 < length l) (sym p.kept_on)
          (there p.left (p.some_left (omega (arith, some_there)))),
    )
  where
    there : (l : List Worker) → 0 < 0 + length l → 0 < length l
    there l h = omega (arith, h)
