-- ===== src/Work/Program/Delivered.antt =====
-- The monitor and a worker together: what the node of a worker holds when a file was dealt to it, and
-- the worker's round after that.
use distributed_task_dispath.Prelude.{
  ℕ, suc, ◌<◌, true, List, some, ◌≡◌, refl, ap, ◌∙◌, ◌==◌, inl, inr, All, In, Distinct, leb, length,
  drop, Bool-cases, if◌then◌else◌,
}
use distributed_task_dispath.Prelude.Int.{pos}
use distributed_task_dispath.Bytes.{Bytes}
use distributed_task_dispath.Bytes.Decimal.{to_string}
use distributed_task_dispath.Zookeeper.{
  Zookeeper, World, Watch, mode_worker, pad, first, is_ok, sleep, zoo_get,
}
use distributed_task_dispath.Zookeeper.Closed.{SetClosed, WaitClosed}
use distributed_task_dispath.Zookeeper.Laws.{Laws, status, first_of_node}
use distributed_task_dispath.Cluster.Paths.{g_path_files, g_path_works, child}
use distributed_task_dispath.Cluster.Dispatch.Loops.{Sendable, sent}
use distributed_task_dispath.Cluster.Dispatch.Nodes.{
  Still, There, stop_all_other, stop_all-Closed, issue-Closed, issue-sent, deal_dropped,
}
use distributed_task_dispath.Cluster.Dispatch.Pairing.{Calm, deal, issue}
use distributed_task_dispath.Cluster.Dispatch.Whole.{dispatched}
use distributed_task_dispath.Cluster.Worker.{recv_work}
use distributed_task_dispath.Work.{Tools, again, round, do_task, is_int, cmd_task}
use distributed_task_dispath.Work.Command.{Reads}
use distributed_task_dispath.Work.Round.Frame.{do_task-Closed}
use distributed_task_dispath.Work.Round.{final, do_task-status}

module _ {zk : Zookeeper} (laws : Laws zk) (still : Still laws) where
  open laws use {node}

  pub calm : Calm laws
  calm n s p = ap first_of_node (still n s p)

  -- What the node of a worker holds after the dispatch that dealt a file to it.
  pub dispatched-sent :
      (f k : Bytes) (fls wks : List Bytes) (s : zk.Store)
      → Distinct wks
      → All (There laws s) wks
      → In (f, k) (deal fls wks)
      → node (dispatched laws fls wks s) (child g_path_works k) ≡ some (pad 512 (sent f))
  dispatched-sent f k fls wks s d t i =
      let given = issue-sent laws still f k fls wks s d t i in
      elim (Bool-cases (leb (length fls) (length wks))) [
        | inr short ↦ rw short given
        | inl full ↦ rw full (
            stop_all_other laws k (drop (length fls) wks) (issue laws (deal fls wks) s)
              (deal_dropped f k fls wks d i)
            ∙ given)
      ]

  -- A dispatch keeps what setting a worker's node and a wait keep.
  pub dispatched-Closed :
      (J : zk.Store → Type 0) (fls wks : List Bytes) (s : zk.Store)
      → ((wk : Bytes) → SetClosed zk J (child g_path_works wk))
      → WaitClosed zk J
      → All Sendable fls
      → J s
      → J (dispatched laws fls wks s)
  dispatched-Closed J fls wks s closed wait c h =
      let kept = issue-Closed laws J fls wks s closed wait c h in
      elim (Bool-cases (leb (length fls) (length wks))) [
        | inr short ↦ rw short kept
        | inl full ↦ rw full (
            stop_all-Closed laws J (drop (length fls) wks) (issue laws (deal fls wks) s) closed
              kept)
      ]

  module _ (tools : Tools) (fuel nap : ℕ) (k : Bytes) where
    open tools use {Disk}

    recv_work_store : (v : World zk) → (recv_work zk k v).1.store ≡ v.store
    unfolding recv_work zoo_get
    recv_work_store v = refl

    abbrev pub worker_on : zk.Store → List Watch → World zk
    worker_on s watches = record { store = s; watches = watches; g_mode = mode_worker }

    -- A worker that has read a command, after its wait.
    abbrev ready : World zk → World zk
    ready v =
        let (cmd, w1) = recv_work zk k v in sleep zk (if first cmd == b'w' then 10 else nap) w1

    round-works :
        (m : ℕ) (s : zk.Store) (watches : List Watch) (d d' : Disk) (w3 : World zk)
        → let v = worker_on s watches in
          cmd_task (recv_work zk k v).0 ≡ pos (suc m)
          → do_task zk tools k (λ s. s) fuel (recv_work zk k v).0 (pos (suc m)) (ready v) d
            ≡ some (w3, d')
          → round zk tools k (λ s. s) fuel nap v d ≡ some (again, sleep zk nap w3, d')
    unfolding round
    round-works m s watches d d' w3 task run = rw (task, run, round) refl

    node-ready : (v : World zk) (p : Bytes) → node (ready v).store p ≡ node v.store p
    unfolding sleep recv_work zoo_get
    node-ready v p = still _ _ p

    status-ready :
        (v : World zk) (p : Bytes) → status laws (ready v).store p ≡ status laws v.store p
    status-ready v p = ap first_of_node (node-ready v p)

    ready-Closed :
        (J : zk.Store → Type 0) → WaitClosed zk J → (v : World zk) → J v.store → J (ready v).store
    unfolding sleep recv_work zoo_get
    ready-Closed J by_wait v h = by_wait _ v.store h

    -- A round on a command for the file of a task that is not 0.
    pub round-status :
        (m : ℕ) (s : zk.Store) (watches : List Watch) (d : Disk)
        → Reads (recv_work zk k (worker_on s watches)).0 (suc m)
        → is_ok (node s g_path_files) ≡ true
        → 0 < status laws s (child g_path_files (to_string (suc m)))
        → 0 < status laws s (child g_path_works k)
        → (v' : World zk) × (d' : Disk) × (round zk tools k
              (λ s. s)
              fuel
              nap
              (worker_on s watches)
              d
            ≡ some (again, v', d'))
          × (status laws v'.store (child g_path_files (to_string (suc m)))
              ≡ (if is_int 0 (final laws tools k (pos (suc m)) d) then b'g' else b'y'))
          × (status laws v'.store (child g_path_works k) ≡ (
              if is_int 0 (final laws tools k (pos (suc m)) d)
              then b's'
              else status laws s (child g_path_works k)))
          × ((J : zk.Store → Type 0)
              → SetClosed zk J (child g_path_files (to_string (suc m)))
              → SetClosed zk J (child g_path_works k)
              → WaitClosed zk J
              → J s
              → J v'.store)
    unfolding sleep
    round-status m s watches d reads root hf hk =
        let v : World zk = worker_on s watches in
        let file : Bytes = child g_path_files (to_string (suc m)) in
        let mine : Bytes = child g_path_works k in
        let (w3, d', run, file_then, mine_then) =
          do_task-status laws tools k fuel (recv_work zk k v).0 (to_string (suc m)) (pos (suc m))
            (ready v) d calm reads.file (ap is_ok (node-ready v g_path_files) ∙ root)
            (rw (status-ready v file) hf) (rw (status-ready v mine) hk) in
        (
          sleep zk nap w3,
          d',
          round-works m s watches d d' w3 reads.task run,
          calm nap w3.store file ∙ file_then,
          calm nap w3.store mine ∙ mine_then ∙ rw (status-ready v mine) refl,
          λ J by_file by_worker by_wait h. by_wait nap w3.store (
              do_task-Closed laws tools k (to_string (suc m)) J by_file by_worker by_wait fuel
                (recv_work zk k v).0 (pos (suc m)) (ready v) w3 d d' reads.file
                (ap is_ok (node-ready v g_path_files) ∙ root) run (ready-Closed J by_wait v h)),
        )
