-- ===== src/ThreadPool/OneThread.antt =====
-- A pool of one thread does its tasks in the order in which they came.
use distributed_task_dispath.Prelude.{
  List, [], ◌∷◌, ◌++◌, ◌≡◌, refl, ap, sym, ◌∙◌, arith, sum, append-nil,
}
use distributed_task_dispath.ThreadPool.{
  Worker, waiting, running, returned, ThreadPool, WorkerStep, take_task, end_task, quit, enqueues,
  stops, works, Reach, begin, later,
}
use distributed_task_dispath.ThreadPool.Invariant.{enqueue_open}
use distributed_task_dispath.ThreadPool.Join.{busy, joined-all_done}

module _ {A : Type 0} where
  in_work : Worker A → List A
  in_work waiting = []
  in_work (running task) = task ∷ []
  in_work returned = []

  record One (p : ThreadPool A) : Type 0 where
    thread : Worker A
    only : p.workers ≡ thread ∷ []
    in_turn : p.taken ≡ p.done ++ in_work thread

  only_one :
      (front back : List (Worker A)) (x w : Worker A)
      → front ++ x ∷ back ≡ w ∷ []
      → (front ≡ []) × (x ≡ w) × (back ≡ [])
  only_one [] back x w e = (refl, (cc), (cc))
  only_one (y ∷ []) back x w e = absurd (cc)
  only_one (y ∷ z ∷ front) back x w e = absurd (cc)

  changed :
      (front back : List (Worker A)) (x : Worker A)
      → front ≡ []
      → back ≡ []
      → front ++ x ∷ back ≡ x ∷ []
  changed front back x e f = rw (e, f) refl

  WorkerStep-One : {p q : ThreadPool A} → WorkerStep p q → One p → One q
  unfolding in_work
  WorkerStep-One {p} (take_task front back task tasks e f) o =
      let (ef, ex, eb) = only_one front back waiting o.thread (sym e ∙ o.only) in
      record {
        thread = running task;
        only = changed front back (running task) ef eb;
        in_turn =
            ap (λ l. l ++ task ∷ [])
              (o.in_turn ∙ ap (λ w. p.done ++ in_work w) (sym ex) ∙ append-nil p.done);
      }
  WorkerStep-One {p} (end_task front back task e) o =
      let (ef, ex, eb) = only_one front back (running task) o.thread (sym e ∙ o.only) in
      record {
        thread = waiting;
        only = changed front back waiting ef eb;
        in_turn =
            o.in_turn
            ∙ ap (λ w. p.done ++ in_work w) (sym ex)
            ∙ sym (append-nil (p.done ++ task ∷ []));
      }
  WorkerStep-One {p} (quit front back e f) o =
      let (ef, ex, eb) = only_one front back waiting o.thread (sym e ∙ o.only) in
      record {
        thread = returned;
        only = changed front back returned ef eb;
        in_turn = o.in_turn ∙ ap (λ w. p.done ++ in_work w) (sym ex);
      }

  Reach-One : {p : ThreadPool A} → Reach 1 p → One p
  unfolding in_work
  Reach-One begin = record { thread = waiting; only = refl; in_turn = refl }
  Reach-One (later {p} r (enqueues task {p'} e)) =
      let o = Reach-One r in
      let after = (enqueue_open task p p' e).1 in
      record {
        thread = o.thread;
        only = ap (λ q. q.workers) after ∙ o.only;
        in_turn =
            ap (λ q. q.taken) after ∙ o.in_turn ∙ ap (λ q. q.done ++ in_work o.thread) (sym after);
      }
  Reach-One (later r stops) =
      let o = Reach-One r in record { thread = o.thread; only = o.only; in_turn = o.in_turn }
  Reach-One (later r (works st)) = WorkerStep-One st (Reach-One r)

  -- When the one thread of a pool has come to its end, the tasks that were enqueued have been done,
  -- each once and in their order.
  pub one_thread-in_order :
      {p : ThreadPool A} → Reach 1 p → sum busy p.workers ≡ 0 → p.done ≡ p.enqueued
  unfolding in_work
  one_thread-in_order {p} r ended =
      let o = Reach-One r in
      let (stopped, order, same) = joined-all_done r (omega arith) ended in
      by_thread o.thread (omega (arith, ap (sum busy) o.only)) o.in_turn ∙ order
    where
      by_thread : (w : Worker A) → busy w ≡ 0 → p.taken ≡ p.done ++ in_work w → p.done ≡ p.taken
      by_thread waiting h e = absurd (omega arith)
      by_thread (running task) h e = absurd (omega arith)
      by_thread returned h e = sym (e ∙ append-nil p.done)
