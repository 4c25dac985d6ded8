-- ===== src/Work/Round/Nodes.antt =====
-- What the work on a file leaves in the nodes of the file and of the worker, byte for byte.
use distributed_task_dispath.Prelude.{
  ℕ, true, [], ◌∷◌, ◌++◌, some, ◌≡◌, refl, ◌∙◌, inl, inr, if◌then◌else◌, Bool-cases,
}
use distributed_task_dispath.Prelude.Int.{ℤ}
use distributed_task_dispath.Bytes.{Bytes, codes}
use distributed_task_dispath.Bytes.Equality.{bytes_eq_refl}
use distributed_task_dispath.Bytes.Decimal.{to_string_int}
use distributed_task_dispath.Zookeeper.{Zookeeper, World, is_ok, zoo_exists}
use distributed_task_dispath.Zookeeper.Laws.{Laws}
use distributed_task_dispath.Cluster.Paths.{
  g_path_files, g_path_works, child, works_ne_files, files_ne_works,
}
use distributed_task_dispath.Cluster.Files.{create_files, st}
use distributed_task_dispath.Cluster.Dispatch.Nodes.{Still}
use distributed_task_dispath.Cluster.Worker.{set_wk_st}
use distributed_task_dispath.Work.{
  Tools, do_task, recover_twice, cmd_file, cmd_target, is_int, is_minus_one,
}
use distributed_task_dispath.Work.Round.{final, recover_twice-final}

module _ {zk : Zookeeper} (laws : Laws zk) (tools : Tools) (localhost : Bytes) where
  open laws use {node, node-set}
  open tools use {Disk, csv_recovery, deltask, send_file}

  recover_twice-node :
      (task : ℤ) (w : World zk) (d : Disk) (p : Bytes)
      → Still laws
      → node (recover_twice zk tools localhost task w d).1.store p ≡ node w.store p
  unfolding recover_twice
  recover_twice-node task w d p still = elim (Bool-cases (is_minus_one (csv_recovery task d).0)) [
    | inl failed ↦ rw failed (still 60 w.store p)
    | inr done ↦ rw done refl
  ]

  -- A node that is there holds the data that is set.
  set_there : (s : zk.Store) (p d e : Bytes) → node s p ≡ some d → node (zk.set s p e).0 p ≡ some e
  set_there s p d e there = node-set s p e p ∙ rw (bytes_eq_refl p, there) refl

  st-node_file :
      (f : Bytes) (c : ℕ) (d : Bytes) (w : World zk)
      → node w.store (child g_path_files f) ≡ some d
      → node (st zk f (c ∷ []) w).store (child g_path_files f) ≡ some (c ∷ [])
  unfolding st
  st-node_file f c d w = set_there w.store (child g_path_files f) d (c ∷ [])

  st-node_worker :
      (f k : Bytes) (c : ℕ) (w : World zk)
      → node (st zk f (c ∷ []) w).store (child g_path_works k) ≡ node w.store (child g_path_works k)
  unfolding st
  st-node_worker f k c w =
      node-set w.store (child g_path_files f) (c ∷ []) (child g_path_works k)
      ∙ rw (files_ne_works f k) refl

  set_wk_st-node :
      (w : World zk) (d : Bytes)
      → node w.store (child g_path_works localhost) ≡ some d
      → node (set_wk_st zk localhost w).store (child g_path_works localhost) ≡ some (codes "s")
  unfolding set_wk_st
  set_wk_st-node w d = set_there w.store (child g_path_works localhost) d (codes "s")

  set_wk_st-node_file :
      (f : Bytes) (w : World zk)
      → node (set_wk_st zk localhost w).store (child g_path_files f)
        ≡ node w.store (child g_path_files f)
  unfolding set_wk_st
  set_wk_st-node_file f w =
      node-set w.store (child g_path_works localhost) (codes "s") (child g_path_files f)
      ∙ rw (works_ne_files localhost f) refl

  -- The work on a file whose command names it `f`. The others leave the nodes alone during the wait,
  -- /files is there, and so are the nodes of the file and of the worker, with the data `old` and
  -- `told`. Then the work comes to an end. If the last try gave 0, the file's node holds g and the
  -- worker's s; if not, the file's node holds y and the worker's holds what it held, the whole
  -- command, so that the worker is not idle.
  pub do_task-nodes :
      (fuel : ℕ) (cmd f old told : Bytes) (task : ℤ) (w : World zk) (d : Disk)
      → Still laws
      → cmd_file cmd ≡ f
      → is_ok (node w.store g_path_files) ≡ true
      → node w.store (child g_path_files f) ≡ some old
      → node w.store (child g_path_works localhost) ≡ some told
      → (w' : World zk) × (d' : Disk) × (do_task zk tools localhost (λ s. s) fuel cmd task w d
          ≡ some (w', d'))
        × (node w'.store (child g_path_files f)
            ≡ some (if is_int 0 (final laws tools localhost task d) then codes "g" else codes "y"))
        × (node w'.store (child g_path_works localhost)
            ≡ some (if is_int 0 (final laws tools localhost task d) then codes "s" else told))
  unfolding do_task create_files zoo_exists child cmd_target to_string_int
  do_task-nodes fuel cmd f old told task w d still named root hf hw =
      let wy : World zk = st zk f (codes "y") w in
      let r = recover_twice zk tools localhost task wy d in
      let file_y =
        recover_twice-node task wy d (child g_path_files f) still ∙ st-node_file f b'y' old w hf in
      let worker_y =
        recover_twice-node task wy d (child g_path_works localhost) still
        ∙ st-node_worker f localhost b'y' w
        ∙ hw in
      let there = laws.has_node_lem w.store g_path_files ∙ root in
      elim (Bool-cases (is_int 0 (final laws tools localhost task d))) [
        | inr failed ↦ (
          r.1,
          r.2,
          rw (there, named, recover_twice-final laws tools localhost task wy d, failed),
          rw failed file_y,
          rw failed worker_y,
        )
        | inl done ↦
            let wg : World zk = st zk f (codes "g") r.1 in
            (
              set_wk_st zk localhost wg,
              send_file (cmd_target cmd) (to_string_int task ++ codes ".csv") (deltask r.2),
              rw (there, named, recover_twice-final laws tools localhost task wy d, done),
              rw done (set_wk_st-node_file f wg ∙ st-node_file f b'g' (codes "y") r.1 file_y),
              rw done (set_wk_st-node wg told (st-node_worker f localhost b'g' r.1 ∙ worker_y)),
            )
      ]
