-- ===== src/ThreadPool/Invariant.antt =====
-- What holds of a pool at any time.
use distributed_task_dispath.Prelude.{
  ℕ, zero, suc, ◌+◌, ◌<◌, Bool, true, false, List, [], ◌∷◌, ◌++◌, some, ◌≡◌, refl, ap, sym, ◌∙◌,
  arith, sum, sum-append, replicate, append_assoc, Bool-cases, inl, inr, subst,
}
use distributed_task_dispath.ThreadPool.{
  Worker, waiting, running, returned, ThreadPool, start_pool, takes, quits, fetch, enqueue,
  WorkerStep, take_task, end_task, quit, Step, enqueues, stops, works, Reach, begin, later,
}

module _ {A : Type 0} where
  -- The weight of the task that a thread has, and 1 for a thread at its end.
  abbrev pub load : (A → ℕ) → Worker A → ℕ
  load g waiting = 0
  load g (running task) = g task
  load g returned = 0

  abbrev pub gone : Worker A → ℕ
  gone waiting = 0
  gone (running task) = 0
  gone returned = 1

  -- Tasks are taken in the order in which they came, none is lost, what was taken is done or
  -- with a thread, and a thread ends only when the pool was stopped and no task is left.
  pub record Inv (p : ThreadPool A) : Type 0 where
    pub in_order : p.enqueued ≡ p.taken ++ p.tasks
    pub accounted : (g : A → ℕ) → sum g p.taken ≡ sum g p.done + sum (load g) p.workers
    pub ended : 0 < sum gone p.workers → (p.stop ≡ true) × (p.tasks ≡ [])

  sum-replicate : (w : Worker A → ℕ) (n : ℕ) → w waiting ≡ 0 → sum w (replicate n waiting) ≡ 0
  sum-replicate w zero h = refl
  sum-replicate w (suc n) h = omega (arith, h, sum-replicate w n h)

  Inv-start_pool : (threads : ℕ) → Inv (start_pool threads)
  Inv-start_pool threads = record {
    in_order = refl;
    accounted = λ g. omega (arith, sum-replicate (load g) threads refl);
    ended = λ h. absurd (omega (arith, sum-replicate gone threads refl));
  }

  pub fetch-takes :
      (stop : Bool) (tasks rest : List A) (task : A)
      → fetch stop tasks ≡ takes task rest
      → tasks ≡ task ∷ rest
  fetch-takes stop (t ∷ ts) rest task e = cc
  fetch-takes true [] rest task e = absurd (cc)
  fetch-takes false [] rest task e = absurd (cc)

  fetch-quits :
      (stop : Bool) (tasks : List A) → fetch stop tasks ≡ quits → (stop ≡ true) × (tasks ≡ [])
  fetch-quits stop (t ∷ ts) e = absurd (cc)
  fetch-quits true [] e = (refl, refl)
  fetch-quits false [] e = absurd (cc)

  -- What a weight comes to when one thread changes.
  pub one_worker :
      (w : Worker A → ℕ) (ws front back : List (Worker A)) (x y : Worker A)
      → ws ≡ front ++ x ∷ back
      → sum w (front ++ y ∷ back) + w x ≡ sum w ws + w y
  one_worker w ws front back x y e =
      omega (arith, ap (sum w) e, sum-append w front (x ∷ back), sum-append w front (y ∷ back))

  WorkerStep-Inv : {p p' : ThreadPool A} → WorkerStep p p' → Inv p → Inv p'
  WorkerStep-Inv {p} (take_task front back task tasks e f) inv =
      let front_task = fetch-takes p.stop p.tasks tasks task f in
      record {
        in_order =
            inv.in_order
            ∙ ap (◌++◌ p.taken) front_task
            ∙ sym (append_assoc p.taken (task ∷ []) tasks);
        accounted = λ g. omega (
          arith,
          inv.accounted g,
          one_worker (load g) p.workers front back waiting (running task) e,
          sum-append g p.taken (task ∷ []),
        );
        ended = λ h.
            let (s, none_left) =
              inv.ended
                (omega (arith, one_worker gone p.workers front back waiting (running task) e)) in
            absurd (cc);
      }
  WorkerStep-Inv {p} (end_task front back task e) inv = record {
    in_order = inv.in_order;
    accounted = λ g. omega (
      arith,
      inv.accounted g,
      one_worker (load g) p.workers front back (running task) waiting e,
      sum-append g p.done (task ∷ []),
    );
    ended = λ h.
        inv.ended (omega (arith, one_worker gone p.workers front back (running task) waiting e));
  }
  WorkerStep-Inv {p} (quit front back e f) inv = record {
    in_order = inv.in_order;
    accounted = λ g.
        omega (arith, inv.accounted g, one_worker (load g) p.workers front back waiting returned e);
    ended = λ h. fetch-quits p.stop p.tasks f;
  }

  pub enqueue_open :
      (task : A) (p p' : ThreadPool A)
      → enqueue task p ≡ some p'
      → (p.stop ≡ false)
        × (p' ≡ record p { tasks = p.tasks ++ task ∷ []; enqueued = p.enqueued ++ task ∷ [] })
  unfolding enqueue
  enqueue_open task p p' e = elim (Bool-cases p.stop) [
    | inl stopped ↦ absurd (let refused = rw (stopped, enqueue) at e in cc)
    | inr open_still ↦ (open_still, let accepted = rw (open_still, enqueue) at e in cc)
  ]

  pub Step-Inv : {p p' : ThreadPool A} → Step p p' → Inv p → Inv p'
  Step-Inv {p} {p'} (enqueues task e) inv =
      let (running_still, after) = enqueue_open task p p' e in
      subst (λ q. Inv q) (sym after)
        (record {
          in_order =
              ap (λ l. l ++ task ∷ []) inv.in_order ∙ append_assoc p.taken p.tasks (task ∷ []);
          accounted = inv.accounted;
          ended = λ h. absurd (let (stopped, left) = inv.ended h in cc);
        })
  Step-Inv stops inv = record {
    in_order = inv.in_order;
    accounted = inv.accounted;
    ended = λ h. (refl, (inv.ended h).1);
  }
  Step-Inv (works st) inv = WorkerStep-Inv st inv

  -- Whatever the owner and the threads of a pool do, and in whatever order: the tasks were taken in
  -- the order in which they were enqueued, those that were not taken wait behind them, each task that
  -- was taken is done or with a thread, and if a thread has come to its end, then the pool was stopped
  -- and no task waits.
  pub Reach-Inv : {threads : ℕ} {p : ThreadPool A} → Reach threads p → Inv p
  Reach-Inv {threads} begin = Inv-start_pool threads
  Reach-Inv (later r st) = Step-Inv st (Reach-Inv r)
