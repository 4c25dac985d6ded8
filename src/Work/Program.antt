-- ===== src/Work/Program.antt =====
-- The program of work.cpp: the loop of `work`, with the handler of the service's events, which runs
-- beside it in a thread of the client; and `main`.
pub mod Stopped
pub mod Dismissed
pub mod Delivered
pub mod Rounds
pub mod Completed
use distributed_task_dispath.Prelude.{
  ℕ, zero, suc, ◌+◌, Bool, List, [], ◌∷◌, Option, none, some, ◌>>=◌,
}
use distributed_task_dispath.Bytes.{Bytes}
use distributed_task_dispath.Bytes.Decimal.{atoi}
use distributed_task_dispath.Zookeeper.{Zookeeper, World, mode_monitor, mode_worker}
use distributed_task_dispath.Cluster.Session.{Sessions, init, close, debug}
use distributed_task_dispath.Cluster.Watcher.{EventType, zktest_watcher_g, prework}
use distributed_task_dispath.Tendis.{Tendis}
use distributed_task_dispath.Work.{Tools, Next, again, leave, round}
use distributed_task_dispath.Work.Insert.{insrt}

-- The events that the handler gets before a round, and the round's own waits: what the others do
-- when it makes /files, and `rand() % 5 + 5`.
pub record Turn (zk : Zookeeper) : Type 0 where
  pub events : List (EventType × Bool × Bytes)
  pub others : zk.Store → zk.Store
  pub nap : ℕ

-- `PROCS_NUM`.
abbrev procs_num : ℕ
procs_num = 0

-- How often `work(node_id)` is called by a process with so many rounds of the loop of `work()` left,
-- and by the processes that come from it: a child works, goes on with the loop, and works again.
abbrev work_calls : ℕ → ℕ
work_calls zero = 1
work_calls (suc n) = let calls = work_calls n in calls + suc calls

module _ (zk : Zookeeper) (tools : Tools) (localhost : Bytes) (fuel : ℕ) where
  open tools use {Disk}

  unfoldable pub handle_events : List (EventType × Bool × Bytes) → World zk → Option (World zk)
  unfolding zktest_watcher_g
  handle_events [] w = some w
  handle_events ((type, connected, path) ∷ events) w = do
    w1 ← zktest_watcher_g zk localhost type connected path w
    handle_events events w1

  -- The loop: `again` is a loop that still runs after the last turn.
  unfoldable pub work_loop : List (Turn zk) → World zk → Disk → Option (Next × World zk × Disk)
  unfolding handle_events round
  work_loop [] w d = some (again, w, d)
  work_loop (turn ∷ turns) w d = elim (handle_events turn.events w) [
    | none ↦ none
    | some w1 ↦ elim (round zk tools localhost turn.others fuel turn.nap w1 d) [
      | none ↦ none
      | some (next, w2, d1) ↦ elim next [
        | leave ↦ some (leave, w2, d1)
        | again ↦ work_loop turns w2 d1
      ]
    ]
  ]

  module _ (sessions : Sessions zk) where
    -- `work(node_id)`: what is there when it has left the loop and closed the session.
    unfoldable pub work :
        (zk.Store → zk.Store) → List (Turn zk) → zk.Store → Disk → Option (Next × World zk × Disk)
    unfolding init prework work_loop close
    work others turns s d = do
      (zkhandle, n) ← init zk sessions fuel 0
      w ←
          prework zk localhost others fuel
            (debug (record { store = s; watches = []; g_mode = mode_worker }))
      (next, w1, d1) ← work_loop turns w d
      elim next [
        | leave ↦ some (leave, close zk sessions zkhandle w1, d1)
        | again ↦ some (again, w1, d1)
      ]

    -- `main`, whose `work()` calls `work(node_id)` once, as `procs_num` is 0; with `argv[1]` and the
    -- lines of the node's file. `insrt` works on /files in a session of its own before the process
    -- has any watch.
    unfoldable pub main :
        (db : Tendis)
        → (zk.Store → zk.Store)
        → (List ℕ → List ℕ)
        → List (db.Data → db.Data)
        → List (Turn zk)
        → Bytes
        → List Bytes
        → zk.Store
        → db.Data
        → Disk
        → Option (Next × World zk × Disk × db.Data)
    unfolding insrt work
    main db others order waits turns argv_1 lines s data_now d = do
      (w, data_then) ←
          insrt db zk sessions others fuel order waits (atoi argv_1) lines
            (record { store = s; watches = []; g_mode = mode_monitor }) data_now
      (next, w1, d1) ← work others turns w.store d
      some (next, w1, d1, data_then)
