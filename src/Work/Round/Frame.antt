-- ===== src/Work/Round/Frame.antt =====
-- What the work on a file keeps: all that setting the nodes of the file and of the worker keeps.
use distributed_task_dispath.Prelude.{
  ℕ, true, Option, some, ◌≡◌, subst, ◌∙◌, inl, inr, arith, Bool-cases,
}
use distributed_task_dispath.Prelude.Int.{ℤ}
use distributed_task_dispath.Bytes.{Bytes, codes}
use distributed_task_dispath.Zookeeper.{Zookeeper, World, is_ok, zoo_exists}
use distributed_task_dispath.Zookeeper.Closed.{SetClosed, WaitClosed}
use distributed_task_dispath.Zookeeper.Laws.{Laws}
use distributed_task_dispath.Cluster.Paths.{g_path_files, g_path_works, child}
use distributed_task_dispath.Cluster.Files.{create_files, st}
use distributed_task_dispath.Cluster.Worker.{set_wk_st}
use distributed_task_dispath.Work.{Tools, do_task, recover_twice, cmd_file, is_int, is_minus_one}

module _ {zk : Zookeeper} (laws : Laws zk) (tools : Tools) (localhost f : Bytes)
    (J : zk.Store → Type 0) (by_file : SetClosed zk J (child g_path_files f))
    (by_worker : SetClosed zk J (child g_path_works localhost)) (by_wait : WaitClosed zk J) where
  open laws use {node}
  open tools use {Disk, csv_recovery, deltask, send_file}

  st_y : (w : World zk) → J w.store → J (st zk f (codes "y") w).store
  unfolding st
  st_y w = by_file w.store (codes "y") (omega arith)

  st_g : (w : World zk) → J w.store → J (st zk f (codes "g") w).store
  unfolding st
  st_g w = by_file w.store (codes "g") (omega arith)

  set_idle : (w : World zk) → J w.store → J (set_wk_st zk localhost w).store
  unfolding set_wk_st
  set_idle w = by_worker w.store (codes "s") (omega arith)

  tried :
      (task : ℤ) (w : World zk) (d : Disk)
      → J w.store
      → J (recover_twice zk tools localhost task w d).1.store
  unfolding recover_twice
  tried task w d h = elim (Bool-cases (is_minus_one (csv_recovery task d).0)) [
    | inl failed ↦ rw failed (by_wait 60 w.store h)
    | inr done ↦ rw done h
  ]

  same_store :
      (a b : World zk) (x y : Disk)
      → ◌≡◌ {A = Option (World zk × Disk)} (some (a, x)) (some (b, y))
      → a.store ≡ b.store
  same_store a b x y h = cc

  pub do_task-Closed :
      (fuel : ℕ) (cmd : Bytes) (task : ℤ) (w w' : World zk) (d d' : Disk)
      → cmd_file cmd ≡ f
      → is_ok (node w.store g_path_files) ≡ true
      → do_task zk tools localhost (λ s. s) fuel cmd task w d ≡ some (w', d')
      → J w.store
      → J w'.store
  unfolding do_task create_files zoo_exists child
  do_task-Closed fuel cmd task w w' d d' named root e h =
      let there = laws.has_node_lem w.store g_path_files ∙ root in
      let wy : World zk = st zk f (codes "y") w in
      let r = recover_twice zk tools localhost task wy d in
      let in_work = tried task wy d (st_y w h) in
      elim (Bool-cases (is_int 0 r.0)) [
        | inr failed ↦
            let same = rw (there, named, failed) at e in
            subst (λ s. J s) (same_store _ w' _ d' same) in_work
        | inl done ↦
            let same = rw (there, named, done) at e in
            subst (λ s. J s) (same_store _ w' _ d' same)
              (set_idle (st zk f (codes "g") r.1) (st_g r.1 in_work))
      ]
