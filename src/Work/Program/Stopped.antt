-- ===== src/Work/Program/Stopped.antt =====
-- A worker that is told to stop leaves the loop of work.cpp.
use distributed_task_dispath.Prelude.{ℕ, Bool, List, [], ◌∷◌, some, ◌≡◌, refl, ap, arith}
use distributed_task_dispath.Prelude.Int.{negsuc}
use distributed_task_dispath.Bytes.{Bytes, find, rfind, substr_between}
use distributed_task_dispath.Bytes.Decimal.{atoi}
use distributed_task_dispath.Zookeeper.{Zookeeper, World, mode_worker, pad, sleep, zoo_get}
use distributed_task_dispath.Zookeeper.Laws.{Laws}
use distributed_task_dispath.Cluster.Dispatch.{stop_command}
use distributed_task_dispath.Cluster.Paths.{g_path_works, child}
use distributed_task_dispath.Cluster.Worker.{recv_work}
use distributed_task_dispath.Cluster.Worker.Inbox.{recv_work-command}
use distributed_task_dispath.Bytes.Search.{Lacks}
use distributed_task_dispath.Cluster.Watcher.{EventType}
use distributed_task_dispath.Work.{Tools, leave, round, cmd_task, cmd_file}
use distributed_task_dispath.Work.Program.{Turn, work_loop, handle_events}

stop_command-cmd_task : cmd_task stop_command ≡ negsuc 0
unfolding cmd_task cmd_file find rfind substr_between atoi
stop_command-cmd_task = refl

module _ {zk : Zookeeper} (laws : Laws zk) (tools : Tools) (localhost : Bytes) (fuel : ℕ) where
  open tools use {Disk}

  no_events :
      (events : List (EventType × Bool × Bytes)) (w : World zk)
      → events ≡ []
      → handle_events zk tools localhost fuel events w ≡ some w
  unfolding handle_events
  no_events events w e = ap (λ es. handle_events zk tools localhost fuel es w) e

  round-stop :
      (others : zk.Store → zk.Store) (nap : ℕ) (w : World zk) (d : Disk)
      → w.g_mode ≡ mode_worker
      → (recv_work zk localhost w).0 ≡ stop_command
      → round zk tools localhost others fuel nap w d
        ≡ some (leave, sleep zk 10 (recv_work zk localhost w).1, d)
  unfolding round
  round-stop others nap w d mode got =
      rw (mode, got, stop_command-cmd_task, round) (rw (got, mode) refl)

  stop_command-Lacks : Lacks 0 stop_command
  stop_command-Lacks = ground arith

  -- A worker whose node holds the stop command, in the 512 bytes that the monitor writes, leaves the
  -- loop in its next round, whatever turns were to follow. It touches neither the disk nor a node:
  -- only the ten seconds of its sleep pass. No event comes before the round.
  pub work_loop-stops :
      (turn : Turn zk) (turns : List (Turn zk)) (w : World zk) (d : Disk)
      → w.g_mode ≡ mode_worker
      → turn.events ≡ []
      → laws.node w.store (child g_path_works localhost) ≡ some (pad 512 stop_command)
      → (w' : World zk) × (work_loop zk tools localhost fuel (turn ∷ turns) w d
          ≡ some (leave, w', d))
        × (w'.store ≡ zk.meanwhile 10 w.store)
  unfolding work_loop sleep recv_work zoo_get
  work_loop-stops turn turns w d mode quiet e =
      let got : (recv_work zk localhost w).0 ≡ stop_command =
        recv_work-command laws localhost stop_command w e refl stop_command-Lacks (omega arith) in
      (
        sleep zk 10 (recv_work zk localhost w).1,
        rw (no_events turn.events w quiet, round-stop turn.others turn.nap w d mode got, work_loop)
            refl,
        refl,
      )
