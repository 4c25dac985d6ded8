-- ===== src/ThreadPool/Join.antt =====
-- When the threads of a pool have come to their end, as the destructor waits for, every task is done.
use distributed_task_dispath.Prelude.{
  ℕ, zero, suc, ◌+◌, ◌<◌, true, List, [], ◌∷◌, ◌++◌, ◌≡◌, refl, ap, sym, ◌∙◌, arith, sum, SameItems,
  replicate, append-nil,
}
use distributed_task_dispath.ThreadPool.{
  Worker, waiting, running, returned, ThreadPool, WorkerStep, take_task, end_task, quit, enqueues,
  stops, works, Reach, begin, later,
}
use distributed_task_dispath.ThreadPool.Invariant.{Reach-Inv, load, gone, one_worker, enqueue_open}

module _ {A : Type 0} where
  -- 1 for a thread that has not come to its end.
  abbrev pub busy : Worker A → ℕ
  busy waiting = 1
  busy (running task) = 1
  busy returned = 0

  -- The number of threads stays.
  WorkerStep-sum :
      {p q : ThreadPool A} → WorkerStep p q → sum (λ w. 1) q.workers ≡ sum (λ w. 1) p.workers
  WorkerStep-sum {p} (take_task front back task tasks e f) =
      omega (arith, one_worker (λ w. 1) p.workers front back waiting (running task) e)
  WorkerStep-sum {p} (end_task front back task e) =
      omega (arith, one_worker (λ w. 1) p.workers front back (running task) waiting e)
  WorkerStep-sum {p} (quit front back e f) =
      omega (arith, one_worker (λ w. 1) p.workers front back waiting returned e)

  Reach-sum : {threads : ℕ} {p : ThreadPool A} → Reach threads p → sum (λ w. 1) p.workers ≡ threads
  Reach-sum {threads} begin = all_there threads
    where
      all_there : (n : ℕ) → sum (λ w. 1) (replicate {A = Worker A} n waiting) ≡ n
      all_there zero = refl
      all_there (suc n) = omega (arith, all_there n)
  Reach-sum (later {p} r (enqueues task {p'} e)) =
      ap (λ q. sum (λ w. 1) q.workers) (enqueue_open task p p' e).1 ∙ Reach-sum r
  Reach-sum (later r stops) = Reach-sum r
  Reach-sum (later r (works st)) = WorkerStep-sum st ∙ Reach-sum r

  busy_or_gone : (ws : List (Worker A)) → sum busy ws + sum gone ws ≡ sum (λ w. 1) ws
  busy_or_gone [] = refl
  busy_or_gone (w ∷ ws) = ground (arith, busy_or_gone ws)

  idle_load : (g : A → ℕ) (ws : List (Worker A)) → sum busy ws ≡ 0 → sum (load g) ws ≡ 0
  idle_load g [] h = refl
  idle_load g (w ∷ ws) h = ground (arith, idle_load g ws)

  -- When all threads of a pool that has some have come to their end, the pool was stopped, the
  -- tasks were taken in the order in which they were enqueued, and each was done exactly once.
  pub joined-all_done :
      {threads : ℕ} {p : ThreadPool A}
      → Reach threads p
      → 0 < threads
      → sum busy p.workers ≡ 0
      → (p.stop ≡ true) × (p.taken ≡ p.enqueued) × SameItems p.done p.enqueued
  joined-all_done {threads} {p} r some_thread ended =
      let inv = Reach-Inv r in
      let all_gone : 0 < sum gone p.workers = omega (arith, busy_or_gone p.workers, Reach-sum r) in
      let (stopped, left) = inv.ended all_gone in
      let order = inv.in_order ∙ ap (◌++◌ p.taken) left ∙ append-nil p.taken in
      (
        stopped,
        sym order,
        λ g. omega (arith, inv.accounted g, idle_load g p.workers ended, ap (sum g) order),
      )
