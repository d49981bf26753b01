-- ===== src/Worker/Pool/Choice.antt =====
-- Which worker gets a task, and what the removal of idle workers leaves.
use coap_share_drive.Base.{
  ℕ, zero, suc, leb, ◌≤◌, ◌<◌, ◌≡◌, refl, ◌⊎◌, inl, inr, Bool, true, false, Option, none, some,
  List, [], ◌∷◌, ◌++◌, length, get_elem?, arith, Bool-cases, subst,
}
use coap_share_drive.Worker.{Worker, idle_worker, get_queue_size}
use coap_share_drive.Worker.Pool.{is_available, in_tail, shorter, lightest, choose_worker}

-- The first of the available workers with the shortest queue.
pub record Lightest (ws : List Worker) (i n : ℕ) : Type 0 where
  pub worker : Worker
  pub there : get_elem? ws i ≡ some worker
  pub available : is_available worker ≡ true
  pub size : get_queue_size worker ≡ n
  pub shortest :
      (j : ℕ) (w : Worker) → get_elem? ws j ≡ some w → is_available w ≡ true → n ≤ get_queue_size w
  pub first :
      (j : ℕ) (w : Worker)
      → get_elem? ws j ≡ some w
      → is_available w ≡ true
      → j < i
      → n < get_queue_size w

abbrev pub NoneAvailable : List Worker → Type 0
NoneAvailable ws = (j : ℕ) (w : Worker) → get_elem? ws j ≡ some w → is_available w ≡ false

abbrev Best : List Worker → Option (ℕ × ℕ) → Type 0
Best ws none = NoneAvailable ws
Best ws (some (i, n)) = Lightest ws i n

absent : {w : Worker} → none ≡ some w → ⊥
absent h = cc

same_worker : {v w : Worker} → some v ≡ some w → v ≡ w
same_worker h = cc

clash : {b : Bool} → b ≡ true → b ≡ false → ⊥
clash h k = cc

module _ (v : Worker) (ws : List Worker) where
  -- What holds of the head and of the workers behind it holds of all.
  each :
      (P : ℕ → Worker → Type 0)
      → P 0 v
      → ((j : ℕ) (w : Worker) → get_elem? ws j ≡ some w → P (suc j) w)
      → (j : ℕ) (w : Worker) → get_elem? (v ∷ ws) j ≡ some w
      → P j w
  each P head tail zero w h = subst (P 0) (same_worker h) head
  each P head tail (suc j) w h = tail j w h

  skipped : (o : Option (ℕ × ℕ)) → is_available v ≡ false → Best ws o → Best (v ∷ ws) (in_tail o)
  skipped none busy b = each (λ j w. is_available w ≡ false) busy b
  skipped (some (i, n)) busy b = record {
    worker = b.worker;
    there = b.there;
    available = b.available;
    size = b.size;
    shortest =
        each (λ j w. is_available w ≡ true → n ≤ get_queue_size w) (λ a. absurd (clash a busy))
          b.shortest;
    first =
        each (λ j w. is_available w ≡ true → j < suc i → n < get_queue_size w)
          (λ a lt. absurd (clash a busy)) (λ j w h a lt. b.first j w h a (omega (arith, lt)));
  }

  taken :
      (o : Option (ℕ × ℕ))
      → is_available v ≡ true
      → Best ws o
      → Best (v ∷ ws) (shorter (get_queue_size v) o)
  taken none free b = record {
    worker = v;
    there = refl;
    available = free;
    size = refl;
    shortest =
        each (λ j w. is_available w ≡ true → get_queue_size v ≤ get_queue_size w) (λ a. omega arith)
          (λ j w h a. absurd (clash a (b j w h)));
    first = λ j w h a lt. absurd (omega (arith, lt));
  }
  taken (some (i, n)) free b = elim (Bool-cases (leb (get_queue_size v) n)) [
    | inl less ↦ rw less (record {
      worker = v;
      there = refl;
      available = free;
      size = refl;
      shortest =
          each (λ j w. is_available w ≡ true → get_queue_size v ≤ get_queue_size w)
            (λ a. omega arith) (λ j w h a. ground (arith, less, b.shortest j w h a));
      first = λ j w h a lt. absurd (omega (arith, lt));
    })
    | inr more ↦ rw more (record {
      worker = b.worker;
      there = b.there;
      available = b.available;
      size = b.size;
      shortest =
          each (λ j w. is_available w ≡ true → n ≤ get_queue_size w) (λ a. ground (arith, more))
            b.shortest;
      first =
          each (λ j w. is_available w ≡ true → j < suc i → n < get_queue_size w)
            (λ a lt. ground (arith, more)) (λ j w h a lt. b.first j w h a (omega (arith, lt)));
    })
  ]

lightest-Best : (ws : List Worker) → Best ws (lightest ws)
unfolding lightest
lightest-Best [] = λ j w h. absurd (absent h)
lightest-Best (v ∷ ws) = elim (Bool-cases (is_available v)) [
  | inl free ↦ rw free (taken v ws (lightest ws) free (lightest-Best ws))
  | inr busy ↦ rw busy (skipped v ws (lightest ws) busy (lightest-Best ws))
]

-- The choice of a worker: an available one, whose queue is the shortest among the available ones and
-- shorter than those before it; or, where none is available, a new one at the end.
pub choose_worker_lem :
    (now : ℕ) (ws : List Worker)
    → ((n : ℕ) × Lightest ws (choose_worker now ws).0 n × ((choose_worker now ws).1 ≡ ws))
      ⊎ (NoneAvailable ws × (choose_worker now ws ≡ (length ws, ws ++ idle_worker now ∷ [])))
unfolding choose_worker
choose_worker_lem now ws = chosen (lightest ws) (lightest-Best ws) refl
  where
    chosen :
        (o : Option (ℕ × ℕ))
        → Best ws o
        → lightest ws ≡ o
        → ((n : ℕ) × Lightest ws (choose_worker now ws).0 n × ((choose_worker now ws).1 ≡ ws))
          ⊎ (NoneAvailable ws × (choose_worker now ws ≡ (length ws, ws ++ idle_worker now ∷ [])))
    chosen none b e = inr (b, rw (e, choose_worker) refl)
    chosen (some (i, n)) b e = inl (n, rw (e, choose_worker) b, rw (e, choose_worker) refl)
