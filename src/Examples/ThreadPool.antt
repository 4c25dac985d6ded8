-- ===== src/Examples/ThreadPool.antt =====
-- The theorems about ThreadPool.h, applied: one thread, three tasks, and the destructor.
use distributed_task_dispath.Prelude.{ℕ, true, List, [], ◌∷◌, ◌≡◌, refl, arith, SameItems}
use distributed_task_dispath.ThreadPool.{
  ThreadPool, waiting, returned, take_task, end_task, quit, enqueue, Reach, begin, later, enqueues,
  stops, works,
}
use distributed_task_dispath.ThreadPool.Invariant.{Inv, Reach-Inv}
use distributed_task_dispath.ThreadPool.Join.{joined-all_done}
use distributed_task_dispath.ThreadPool.OneThread.{one_thread-in_order}

module _ {A : Type 0} (a b c : A) where
  abbrev all_three : List A
  all_three = a ∷ b ∷ c ∷ []

  -- Three tasks wait, and the owner has begun to join the thread.
  abbrev pub joining : ThreadPool A
  joining = record {
    workers = waiting ∷ [];
    tasks = all_three;
    stop = true;
    enqueued = all_three;
    taken = [];
    done = [];
  }

  abbrev pub ended : ThreadPool A
  ended = record {
    workers = returned ∷ [];
    tasks = [];
    stop = true;
    enqueued = all_three;
    taken = all_three;
    done = all_three;
  }

  pub joining-Reach : Reach 1 joining
  unfolding enqueue
  joining-Reach =
      later (later (later (later begin (enqueues a refl)) (enqueues b refl)) (enqueues c refl))
        stops

  pub ended-Reach : Reach 1 ended
  unfolding enqueue
  ended-Reach =
      later
        (later
          (later
            (later
              (later
                (later (later joining-Reach (works (take_task [] [] a (b ∷ c ∷ []) refl refl)))
                  (works (end_task [] [] a refl)))
                (works (take_task [] [] b (c ∷ []) refl refl)))
              (works (end_task [] [] b refl)))
            (works (take_task [] [] c [] refl refl)))
          (works (end_task [] [] c refl)))
        (works (quit [] [] refl refl))

abbrev numbers : List ℕ
numbers = 3 ∷ 5 ∷ 7 ∷ []

abbrev after : ThreadPool ℕ
after = ended 3 5 7

Reach-Inv_example : Inv after
Reach-Inv_example = Reach-Inv (ended-Reach 3 5 7)

joined-all_done_example :
    (after.stop ≡ true) × (after.taken ≡ numbers) × SameItems after.done numbers
joined-all_done_example = joined-all_done (ended-Reach 3 5 7) (omega arith) refl

one_thread-in_order_example : after.done ≡ numbers
one_thread-in_order_example = one_thread-in_order (ended-Reach 3 5 7) refl
