-- ===== src/Work/System.antt =====
-- Any number of processes on one store: whatever they run, and in whatever order, the files are kept.
use distributed_task_dispath.Prelude.{
  ℕ, zero, suc, Bool, Option, none, some, ◌≡◌, refl, inl, inr, subst, ◌==◌, if◌then◌else◌,
}
use distributed_task_dispath.Prelude.Int.{ℤ, pos, negsuc}
use distributed_task_dispath.Bytes.{Bytes, codes}
use distributed_task_dispath.Zookeeper.{
  Zookeeper, World, first, zoo_set, zoo_get, zoo_create, sleep,
}
use distributed_task_dispath.Zookeeper.Laws.{Laws}
use distributed_task_dispath.Cluster.Paths.{g_path_works, child, works_ne_files}
use distributed_task_dispath.Cluster.Files.{create_files, insr2clst, st}
use distributed_task_dispath.Cluster.Kept.{
  left, Keeps, keep_all, both, set_other, set_file, create_file, Ends, later_Ends, mode_Ends,
  chain_option_Ends, if_Keeps,
}
use distributed_task_dispath.Cluster.Kept.Handlers.{
  create_files-Keeps, prework-Keeps, zktest_watcher_g-Keeps,
}
use distributed_task_dispath.Cluster.Watcher.{EventType, zktest_watcher_g, prework}
use distributed_task_dispath.Cluster.Worker.{recv_work, set_wk_st}
use distributed_task_dispath.Work.{
  Tools, Next, again, leave, round, do_task, recover_twice, cmd_file, cmd_task, is_int,
  is_minus_one,
}

module _ {zk : Zookeeper} (laws : Laws zk) (tools : Tools)
    (calm : (n : ℕ) (s : zk.Store) → Keeps laws s (zk.meanwhile n s)) (others : zk.Store → zk.Store)
    (others_calm : (s : zk.Store) → Keeps laws s (others s)) where
  open tools use {Disk}

  recover_twice-Keeps :
      (localhost : Bytes) (task : ℤ) (w : World zk) (d : Disk)
      → Keeps laws w.store (recover_twice zk tools localhost task w d).1.store
  unfolding recover_twice sleep
  recover_twice-Keeps localhost task w d =
      let (ret, d1) = tools.csv_recovery task d in
      let (ret2, d2) = tools.csv_recovery task d1 in
      if_Keeps laws {X = ℤ × World zk × Disk} (λ r. r.1.store) w.store (is_minus_one ret)
        (ret2, sleep zk 60 w, d2) (ret, w, d1) (calm 60 w.store) (keep_all laws w.store)

  do_task-Keeps :
      (localhost : Bytes) (fuel : ℕ) (cmd : Bytes) (task : ℤ) (w : World zk) (d : Disk)
      → Ends laws (λ r. r.0.store) w.store (do_task zk tools localhost others fuel cmd task w d)
  unfolding do_task st set_wk_st zoo_set
  do_task-Keeps localhost fuel cmd task w d =
      chain_option_Ends laws (left laws) (λ r. r.0.store) w.store (create_files zk others fuel w) _
        (create_files-Keeps laws calm others others_calm fuel w)
        (λ w1.
          let wy : World zk = st zk (cmd_file cmd) (codes "y") w1 in
          let (ret, w2, d1) = recover_twice zk tools localhost task wy d in
          let so_far =
            both laws (set_file laws w1.store (cmd_file cmd) (codes "y") (inr (inl refl)))
              (recover_twice-Keeps localhost task wy d) in
          if_Keeps laws {X = World zk × Disk} (λ r. r.0.store) w1.store (is_int 0 ret) _ _
            (both laws so_far (
              both laws (set_file laws w2.store (cmd_file cmd) (codes "g") (inr (inr refl))) (
                set_other laws _ (child g_path_works localhost) (codes "s")
                  (λ f. works_ne_files localhost f))))
            so_far)

  -- The rest of a round, on the number of the command.
  after_command :
      (localhost : Bytes) (fuel nap : ℕ) (cmd : Bytes) (number : ℤ) (s : zk.Store) (w : World zk)
      (d : Disk)
      → Keeps laws s w.store
      → Ends laws {X = Next × World zk × Disk}
          (λ r. r.1.store)
          s
          (elim number [
            | pos n ↦ elim n [
              | zero ↦ some (again, w, d)
              | suc m ↦ elim (do_task zk tools localhost others fuel cmd (pos (suc m)) w d) [
                | none ↦ none
                | some (w3, d1) ↦ some (again, sleep zk nap w3, d1)
              ]
            ]
            | negsuc n ↦ some (if n == 0 then leave else again, w, d)
          ])
  unfolding sleep
  after_command localhost fuel nap cmd (pos zero) s w d h = h
  after_command localhost fuel nap cmd (pos (suc m)) s w d h =
      chain_option_Ends laws (λ r. r.0.store) (λ r. r.1.store) s
        (do_task zk tools localhost others fuel cmd (pos (suc m)) w d) _
        (later_Ends laws (λ r. r.0.store) s w.store _ h
          (do_task-Keeps localhost fuel cmd (pos (suc m)) w d))
        (λ r. calm nap r.0.store)
  after_command localhost fuel nap cmd (negsuc n) s w d h = h

  round-Keeps :
      (localhost : Bytes) (fuel nap : ℕ) (w : World zk) (d : Disk)
      → Ends laws (λ r. r.1.store) w.store (round zk tools localhost others fuel nap w d)
  unfolding round recv_work zoo_get sleep
  round-Keeps localhost fuel nap w d =
      let (cmd, w1) = recv_work zk localhost w in
      let w2 : World zk = sleep zk (if first cmd == b'w' then 10 else nap) w1 in
      mode_Ends laws (λ r. r.1.store) w.store w.g_mode _ _ (keep_all laws w.store)
        (after_command localhost fuel nap cmd (cmd_task cmd) w.store w2 d (calm _ w.store))

  -- What a process does on the store, in any state of its own: a worker's round, the handler of an
  -- event, its start, the insertion of a file.
  pub data Step (s : zk.Store) : zk.Store → Type 0 where
    rounds :
        (localhost : Bytes) (fuel nap : ℕ) (w w' : World zk) (d d' : Disk) (next : Next)
        → w.store ≡ s
        → round zk tools localhost others fuel nap w d ≡ some (next, w', d')
        → Step s w'.store
    handles :
        (localhost : Bytes) (type : EventType) (connected : Bool) (path : Bytes) (w w' : World zk)
        → w.store ≡ s
        → zktest_watcher_g zk localhost type connected path w ≡ some w'
        → Step s w'.store
    starts :
        (localhost : Bytes) (fuel : ℕ) (w w' : World zk)
        → w.store ≡ s
        → prework zk localhost others fuel w ≡ some w'
        → Step s w'.store
    inserts : (file_no : Bytes) (w : World zk) → w.store ≡ s → Step s (insr2clst zk file_no w).store

  pub data Reach (s : zk.Store) : zk.Store → Type 0 where
    begin : Reach s s
    later : {t u : zk.Store} → Reach s t → Step t u → Reach s u

  insr2clst-Keeps :
      (file_no : Bytes) (w : World zk) → Keeps laws w.store (insr2clst zk file_no w).store
  unfolding insr2clst zoo_create
  insr2clst-Keeps file_no w = create_file laws w.store file_no

  ended :
      {X : Type 0} (store_of : X → zk.Store) (s : zk.Store) (o : Option X) (x : X)
      → o ≡ some x
      → Ends laws store_of s o
      → Keeps laws s (store_of x)
  ended store_of s o x e h = subst (λ r. Ends laws store_of s r) e h

  Step-Keeps : {s t : zk.Store} → Step s t → Keeps laws s t
  Step-Keeps {s} (rounds localhost fuel nap w w' d d' next e run) =
      subst (λ x. Keeps laws x w'.store) e
        (ended (λ r. r.1.store) w.store _ (next, w', d') run (round-Keeps localhost fuel nap w d))
  Step-Keeps {s} (handles localhost type connected path w w' e run) =
      subst (λ x. Keeps laws x w'.store) e
        (ended (left laws) w.store _ w' run
          (zktest_watcher_g-Keeps laws calm others others_calm localhost type connected path w))
  Step-Keeps {s} (starts localhost fuel w w' e run) =
      subst (λ x. Keeps laws x w'.store) e
        (ended (left laws) w.store _ w' run
          (prework-Keeps laws calm others others_calm localhost fuel w))
  Step-Keeps {s} (inserts file_no w e) =
      subst (λ x. Keeps laws x (insr2clst zk file_no w).store) e (insr2clst-Keeps file_no w)

  -- Let what the model leaves open, the others during a sleep and before a root is made, keep the
  -- files. Then so does any number of processes in any order of their rounds, handlers, starts and
  -- insertions: a file that has a node keeps one, and a status that is r, y or g stays one of these.
  pub Reach-Keeps : {s t : zk.Store} → Reach s t → Keeps laws s t
  Reach-Keeps {s} begin = keep_all laws s
  Reach-Keeps (later r st) = both laws (Reach-Keeps r) (Step-Keeps st)
