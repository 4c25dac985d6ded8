-- ===== src/Work/Round.antt =====
-- What a round does to the status of the file and of the worker.
pub mod Frame
pub mod Nodes
use distributed_task_dispath.Prelude.{
  ℕ, ◌<◌, true, [], ◌∷◌, ◌++◌, some, ◌≡◌, ◌∙◌, inl, inr, arith, if◌then◌else◌, Bool-cases,
}
use distributed_task_dispath.Prelude.Int.{ℤ}
use distributed_task_dispath.Bytes.{Bytes, codes}
use distributed_task_dispath.Bytes.Decimal.{to_string_int}
use distributed_task_dispath.Zookeeper.{Zookeeper, World, is_ok, zoo_exists}
use distributed_task_dispath.Zookeeper.Laws.{Laws, status}
use distributed_task_dispath.Cluster.Paths.{
  g_path_files, g_path_works, child, works_ne_files, files_ne_works,
}
use distributed_task_dispath.Cluster.Files.{create_files, st}
use distributed_task_dispath.Cluster.Dispatch.Loops.{status-set_other, status-set_self}
use distributed_task_dispath.Cluster.Dispatch.Pairing.{Calm}
use distributed_task_dispath.Cluster.Worker.{set_wk_st}
use distributed_task_dispath.Work.{
  Tools, do_task, recover_twice, cmd_file, cmd_target, is_int, is_minus_one,
}

module _ {zk : Zookeeper} (laws : Laws zk) (tools : Tools) (localhost : Bytes) where
  open tools use {Disk, csv_recovery, deltask, send_file}

  -- The code of the second try, or of the first if it was not -1.
  abbrev pub final : ℤ → Disk → ℤ
  final task d =
      let (ret, d1) = csv_recovery task d in
      if is_minus_one ret then (csv_recovery task d1).0 else ret

  pub recover_twice-final :
      (task : ℤ) (w : World zk) (d : Disk)
      → (recover_twice zk tools localhost task w d).0 ≡ final task d
  unfolding recover_twice
  recover_twice-final task w d = ground arith

  recover_twice-status :
      (task : ℤ) (w : World zk) (d : Disk) (p : Bytes)
      → Calm laws
      → status laws (recover_twice zk tools localhost task w d).1.store p ≡ status laws w.store p
  unfolding recover_twice
  recover_twice-status task w d p calm = elim (Bool-cases (is_minus_one (csv_recovery task d).0)) [
    | inl failed ↦ rw failed (calm 60 w.store p)
    | inr done ↦ rw done
  ]

  st-status :
      (f : Bytes) (c : ℕ) (w : World zk)
      → 0 < status laws w.store (child g_path_files f)
      → status laws (st zk f (c ∷ []) w).store (child g_path_files f) ≡ c
  unfolding st
  st-status f c w h = status-set_self laws w.store (child g_path_files f) (c ∷ []) h

  st-status_worker :
      (f k : Bytes) (c : ℕ) (w : World zk)
      → status laws (st zk f (c ∷ []) w).store (child g_path_works k)
        ≡ status laws w.store (child g_path_works k)
  unfolding st
  st-status_worker f k c w =
      status-set_other laws w.store (child g_path_files f) (c ∷ []) _ (files_ne_works f k)

  idle-status :
      (w : World zk)
      → 0 < status laws w.store (child g_path_works localhost)
      → status laws (set_wk_st zk localhost w).store (child g_path_works localhost) ≡ b's'
  unfolding set_wk_st
  idle-status w h = status-set_self laws w.store (child g_path_works localhost) (codes "s") h

  idle-status_file :
      (f : Bytes) (w : World zk)
      → status laws (set_wk_st zk localhost w).store (child g_path_files f)
        ≡ status laws w.store (child g_path_files f)
  unfolding set_wk_st
  idle-status_file f w =
      status-set_other laws w.store (child g_path_works localhost) (codes "s") _
        (works_ne_files localhost f)

  -- The work on a file whose command names it `f`. The first bytes of the nodes are left alone by
  -- the others during the wait, /files is there, and the nodes of the file and of the worker hold
  -- data. If one of the two tries gives 0, the file ends as done (g) and the worker as idle (s);
  -- if not, the file stays in work (y) and the first byte of the worker's node is as it was.
  pub do_task-status :
      (fuel : ℕ) (cmd f : Bytes) (task : ℤ) (w : World zk) (d : Disk)
      → Calm laws
      → cmd_file cmd ≡ f
      → is_ok (laws.node w.store g_path_files) ≡ true
      → 0 < status laws w.store (child g_path_files f)
      → 0 < status laws w.store (child g_path_works localhost)
      → (w' : World zk) × (d' : Disk) × (do_task zk tools localhost (λ s. s) fuel cmd task w d
          ≡ some (w', d'))
        × (status laws w'.store (child g_path_files f)
            ≡ (if is_int 0 (final task d) then b'g' else b'y'))
        × (status laws w'.store (child g_path_works localhost) ≡ (
            if is_int 0 (final task d)
            then b's'
            else status laws w.store (child g_path_works localhost)))
  unfolding do_task create_files zoo_exists child cmd_target to_string_int
  do_task-status fuel cmd f task w d calm named root hf hw =
      let wy : World zk = st zk f (codes "y") w in
      let r = recover_twice zk tools localhost task wy d in
      let file_y =
        recover_twice-status task wy d (child g_path_files f) calm ∙ st-status f b'y' w hf in
      let worker_y =
        recover_twice-status task wy d (child g_path_works localhost) calm
        ∙ st-status_worker f localhost b'y' w in
      let there = laws.has_node_lem w.store g_path_files ∙ root in
      elim (Bool-cases (is_int 0 (final task d))) [
        | inr failed ↦ (
          r.1,
          r.2,
          rw (there, named, recover_twice-final task wy d, failed),
          rw failed file_y,
          rw failed worker_y,
        )
        | inl done ↦
            let wg : World zk = st zk f (codes "g") r.1 in
            (
              set_wk_st zk localhost wg,
              send_file (cmd_target cmd) (to_string_int task ++ codes ".csv") (deltask r.2),
              rw (there, named, recover_twice-final task wy d, done),
              rw done (idle-status_file f wg ∙ st-status f b'g' r.1 (rw file_y (omega arith))),
              rw done (idle-status wg (rw (st-status_worker f localhost b'g' r.1, worker_y) hw)),
            )
      ]
