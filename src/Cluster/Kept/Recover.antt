-- ===== src/Cluster/Kept/Recover.antt =====
-- Election and recovery keep the files: what `recover` puts back is r, and what it takes away is no
-- file's node.
use distributed_task_dispath.Prelude.{
  ℕ, ◌-◌, Bool, true, false, List, [], ◌∷◌, Option, none, some, ◌≡◌, refl, sym, inl, inr,
  Bool-cases, ◌==◌, if◌then◌else◌, take, drop, replicate, length, subst,
}
use distributed_task_dispath.Bytes.{Bytes, codes, c_str}
use distributed_task_dispath.Zookeeper.{
  Zookeeper, World, WorkMode, mode_monitor, mode_worker, zeroed, first, zoo_get, zoo_get_children,
  zoo_set, zoo_delete,
}
use distributed_task_dispath.Zookeeper.Laws.{Laws}
use distributed_task_dispath.Cluster.Paths.{
  g_path_elect, g_path_files, g_path_works, child, works_ne_files,
}
use distributed_task_dispath.Cluster.Elect.{choose_mater, identify, least}
use distributed_task_dispath.Cluster.Recover.{
  member, give_up_own, read_elect, clear_worker, clear_workers, recover, take_over, reelect,
}
use distributed_task_dispath.Cluster.Kept.{
  left, Keeps, keep_all, both, set_other, set_file, delete_other, if_Keeps, Ends, if_Ends,
  later_Ends, option_Ends, list_Ends,
}

module _ {zk : Zookeeper} (laws : Laws zk) (localhost : Bytes) where
  give_up_own-Keeps : (w : World zk) → Keeps laws w.store (give_up_own zk localhost w).store
  unfolding give_up_own zoo_get zoo_set
  give_up_own-Keeps w =
      let (ret, b, w1) = zoo_get zk true (child g_path_works localhost) (zeroed 64) w in
      by_test (first b.bytes == b'w') (c_str (drop 1 b.bytes)) w1
    where
      by_test :
          (b : Bool) (f : Bytes) (v : World zk)
          → Keeps laws v.store
              (if b
                then zoo_set zk
                    (child g_path_works localhost)
                    (codes "s")
                    (zoo_set zk (child g_path_files f) (codes "r") v)
                else v).store
      by_test true f v = both laws (set_file laws v.store f (codes "r") (inl refl)) (
          set_other laws _ (child g_path_works localhost) (codes "s")
            (λ g. works_ne_files localhost g))
      by_test false f v = keep_all laws v.store

  read_elect-store :
      (ps : List Bytes) (n : ℕ) (dct : List Bytes) (w : World zk)
      → (read_elect zk localhost ps n dct w).1.store ≡ w.store
  unfolding read_elect zoo_get
  read_elect-store [] n dct w = refl
  read_elect-store (p ∷ ps) n dct w = read_elect-store ps _ _ _

  clear_worker-Keeps :
      (wk : Bytes) (n : ℕ) (w : World zk)
      → Keeps laws w.store (clear_worker zk localhost wk n w).1.store
  unfolding clear_worker zoo_get zoo_set zoo_delete
  clear_worker-Keeps wk n w =
      let (ret, b, w1) =
        zoo_get zk false (child g_path_works wk) (record { bytes = replicate 64 b'0'; len = n })
          w in
      both laws (by_test (first b.bytes == b'w') (c_str (take (b.len - 1) (drop 1 b.bytes))) w1)
        (delete_other laws _ (child g_path_works wk) (λ g. works_ne_files wk g))
    where
      by_test :
          (b : Bool) (f : Bytes) (v : World zk)
          → Keeps laws v.store
              (if b then zoo_set zk (child g_path_files f) (codes "r") v else v).store
      by_test true f v = set_file laws v.store f (codes "r") (inl refl)
      by_test false f v = keep_all laws v.store

  clear_workers-Keeps_files :
      (dct wks : List Bytes) (n : ℕ) (w : World zk)
      → Keeps laws w.store (clear_workers zk localhost dct wks n w).store
  unfolding clear_workers
  clear_workers-Keeps_files dct [] n w = keep_all laws w.store
  clear_workers-Keeps_files dct (wk ∷ wks) n w = elim (Bool-cases (member wk dct)) [
    | inl live ↦ rw (live, clear_workers) (clear_workers-Keeps_files dct wks n w)
    | inr dead ↦
        let (len, w') = clear_worker zk localhost wk n w in
        rw (dead, clear_workers)
          (both laws (clear_worker-Keeps wk n w) (clear_workers-Keeps_files dct wks len w'))
  ]

  recover-Keeps : (w : World zk) → Ends laws (left laws) w.store (recover zk localhost w)
  unfolding recover zoo_get_children
  recover-Keeps w =
      let w0 : World zk = give_up_own zk localhost w in
      let w1 : World zk = (zoo_get_children zk true g_path_elect w0).1 in
      option_Ends laws (left laws) w.store (zk.get_children w0.store g_path_elect) _ (λ ps.
        let (dct, w2) = read_elect zk localhost ps 64 [] w1 in
        let w3 : World zk = (zoo_get_children zk true g_path_works w2).1 in
        let so_far =
          subst (λ s. Keeps laws w.store s) (sym (read_elect-store ps 64 [] w1))
            (give_up_own-Keeps w) in
        option_Ends laws (left laws) w.store (zk.get_children w2.store g_path_works) _
          (λ ks. both laws so_far (clear_workers-Keeps_files dct ks 64 w3)))

  choose_mater-Keeps :
      (path : Bytes) (w : World zk)
      → Ends laws (left laws) w.store (choose_mater zk localhost path w)
  unfolding choose_mater zoo_get_children zoo_get
  choose_mater-Keeps path w =
      option_Ends laws (left laws) w.store (zk.get_children w.store path) _ (λ ps.
        list_Ends laws (left laws) w.store ps _ _ (keep_all laws w.store) (λ p rest.
          if_Keeps laws (left laws) w.store
            (zoo_get zk false (child path (least p rest)) (zeroed 64)
              (zoo_get_children zk true path w).1).0
            _ _ (keep_all laws w.store) (keep_all laws w.store)))

  pub identify-Keeps :
      (path : Bytes) (w : World zk) → Ends laws (left laws) w.store (identify zk localhost path w)
  unfolding identify zoo_get_children
  identify-Keeps path w =
      option_Ends laws (left laws) w.store (zk.get_children w.store path) _ (λ ps.
        list_Ends laws (left laws) w.store ps _ _ (keep_all laws w.store) (λ p rest.
          list_Ends laws (left laws) w.store rest _ _ (keep_all laws w.store)
            (λ q more. choose_mater-Keeps path (zoo_get_children zk true path w).1)))

  take_over-Keeps :
      (s : zk.Store) (o : Option (World zk))
      → Ends laws (left laws) s o
      → Ends laws (left laws) s (take_over zk localhost o)
  unfolding take_over
  take_over-Keeps s none h = tt
  take_over-Keeps s (some w) h = by_mode w.g_mode
    where
      by_mode :
          (m : WorkMode)
          → Ends laws
              (left laws)
              s
              (elim m [ mode_monitor ↦ recover zk localhost w | mode_worker ↦ some w ])
      by_mode mode_monitor =
          later_Ends laws (left laws) s w.store (recover zk localhost w) h (recover-Keeps w)
      by_mode mode_worker = h

  pub reelect-Keeps : (w : World zk) → Ends laws (left laws) w.store (reelect zk localhost w)
  unfolding reelect zoo_get_children
  reelect-Keeps w =
      let w2 : World zk =
        (zoo_get_children zk true g_path_works (zoo_get_children zk true g_path_elect w).1).1 in
      option_Ends laws (left laws) w.store (zk.get_children w.store g_path_elect) _ (λ es.
        option_Ends laws (left laws) w.store (zk.get_children w.store g_path_works) _ (λ ks.
          if_Ends laws (left laws) w.store (length es == length ks) _ _ (keep_all laws w.store) (
            take_over-Keeps w.store (choose_mater zk localhost g_path_elect w2)
              (choose_mater-Keeps g_path_elect w2))))
