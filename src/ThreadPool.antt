-- ===== src/ThreadPool.antt =====
-- ThreadPool.h, of which _file_recovery, _read_csv and _tendis_server have the same copy: a queue of
-- tasks, and threads that take the front one. What stands under the lock is one step. The three
-- lists at the end of the state are not in the code: they record what was enqueued, taken and done.
-- Notifications are left out: a thread in `condition.wait` may wake and test at any time.
pub mod Invariant
pub mod Join
pub mod OneThread
use distributed_task_dispath.Prelude.{
  ℕ, zero, suc, Bool, true, false, List, [], ◌∷◌, ◌++◌, Option, none, some, ◌≡◌, replicate,
}

-- A thread: in `condition.wait` or before it, with a task, or at its end.
pub data Worker (A : Type 0) : Type 0 where
  waiting : Worker A
  running : A → Worker A
  returned : Worker A

pub record ThreadPool (A : Type 0) : Type 0 where
  pub workers : List (Worker A)
  pub tasks : List A
  pub stop : Bool
  pub enqueued : List A
  pub taken : List A
  pub done : List A

-- The constructor.
abbrev pub start_pool : {A : Type 0} → ℕ → ThreadPool A
start_pool threads = record {
  workers = replicate threads waiting;
  tasks = [];
  stop = false;
  enqueued = [];
  taken = [];
  done = [];
}

-- What a thread does when it has the lock.
pub data Fetched (A : Type 0) : Type 0 where
  blocks : Fetched A
  quits : Fetched A
  takes : A → List A → Fetched A

-- The test of `condition.wait`, the return, and the front task.
abbrev pub fetch : {A : Type 0} → Bool → List A → Fetched A
fetch stop (task ∷ tasks) = takes task tasks
fetch true [] = quits
fetch false [] = blocks

-- `none` is the `runtime_error` of a pool that was stopped.
unfoldable pub enqueue : {A : Type 0} → A → ThreadPool A → Option (ThreadPool A)
enqueue task p = elim p.stop [
  | true ↦ none
  | false ↦ some (record p { tasks = p.tasks ++ task ∷ []; enqueued = p.enqueued ++ task ∷ [] })
]

-- What the destructor does before it joins the threads.
abbrev pub stop_pool : {A : Type 0} → ThreadPool A → ThreadPool A
stop_pool p = record p { stop = true }

-- One step of one thread: `front` and `back` are the other threads.
pub data WorkerStep {A : Type 0} (p : ThreadPool A) : ThreadPool A → Type 0 where
  take_task :
      (front back : List (Worker A)) (task : A) (tasks : List A)
      → p.workers ≡ front ++ waiting ∷ back
      → fetch p.stop p.tasks ≡ takes task tasks
      → WorkerStep p (record p {
        workers = front ++ running task ∷ back;
        tasks = tasks;
        taken = p.taken ++ task ∷ [];
      })
  end_task :
      (front back : List (Worker A)) (task : A)
      → p.workers ≡ front ++ running task ∷ back
      → WorkerStep p (record p { workers = front ++ waiting ∷ back; done = p.done ++ task ∷ [] })
  quit :
      (front back : List (Worker A))
      → p.workers ≡ front ++ waiting ∷ back
      → fetch p.stop p.tasks ≡ quits
      → WorkerStep p (record p { workers = front ++ returned ∷ back })

-- A step of the owner, or of a thread.
pub data Step {A : Type 0} (p : ThreadPool A) : ThreadPool A → Type 0 where
  enqueues : (task : A) {p' : ThreadPool A} → enqueue task p ≡ some p' → Step p p'
  stops : Step p (stop_pool p)
  works : {p' : ThreadPool A} → WorkerStep p p' → Step p p'

-- What a pool of so many threads comes to.
pub data Reach {A : Type 0} (threads : ℕ) : ThreadPool A → Type 0 where
  begin : Reach threads (start_pool threads)
  later : {p p' : ThreadPool A} → Reach threads p → Step p p' → Reach threads p'
