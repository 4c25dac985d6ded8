-- ===== src/Cluster/Kept/Handlers.antt =====
-- The start of a process and its handler keep the files.
use distributed_task_dispath.Prelude.{
  ℕ, zero, suc, Bool, true, false, ◌&&◌, ◌||◌, List, [], ◌∷◌, ◌≡◌, refl, sym, arith, subst, take,
  length, ltb,
}
use distributed_task_dispath.Bytes.{Bytes, codes, bytes_eq}
use distributed_task_dispath.Zookeeper.{
  Zookeeper, World, zoo_create, zoo_exists, zoo_get, zoo_get_children, persistent, pad, Buffer,
  zeroed,
}
use distributed_task_dispath.Zookeeper.Laws.{Laws}
use distributed_task_dispath.Cluster.Paths.{
  g_path_elect, g_path_files, g_path_works, child, works_ne_files,
}
use distributed_task_dispath.Cluster.Files.{
  ensure, create_until_ok, create_files, create_works, create_elect,
}
use distributed_task_dispath.Cluster.Register.{regist, watch_all, monitor_work}
use distributed_task_dispath.Cluster.Watcher.{
  EventType, zktest_watcher_g, prework, is_child, is_changed,
}
use distributed_task_dispath.Cluster.Worker.{recv_work}
use distributed_task_dispath.Cluster.Kept.{
  left, Keeps, keep_all, both, same_files, NoFile, create_other, Ends, if_Ends, later_Ends,
  option_Ends, mode_Ends, case_Ends, chain_Ends,
}
use distributed_task_dispath.Cluster.Kept.Dispatch.{dispatch_work-Keeps}
use distributed_task_dispath.Cluster.Kept.Recover.{identify-Keeps, reelect-Keeps}

module _ {zk : Zookeeper} (laws : Laws zk)
    (calm : (n : ℕ) (s : zk.Store) → Keeps laws s (zk.meanwhile n s)) (others : zk.Store → zk.Store)
    (others_calm : (s : zk.Store) → Keeps laws s (others s)) where
  create_until_ok-Keeps :
      (fuel : ℕ) (path value : Bytes) (w : World zk)
      → NoFile laws path
      → Ends laws (left laws) w.store (create_until_ok zk fuel path value w)
  unfolding create_until_ok zoo_create
  create_until_ok-Keeps zero path value w h = tt
  create_until_ok-Keeps (suc fuel) path value w h =
      let (w', ret) = zoo_create zk path value persistent w in
      let made = create_other laws w.store path value h in
      case_Ends laws (left laws) w.store ret _ _
        (later_Ends laws (left laws) w.store w'.store _ made
          (create_until_ok-Keeps fuel path value w' h))
        made

  ensure-Keeps :
      (fuel : ℕ) (path value : Bytes) (w : World zk)
      → NoFile laws path
      → Ends laws (left laws) w.store (ensure zk others fuel path value w)
  unfolding ensure zoo_exists
  ensure-Keeps fuel path value w h =
      let w2 : World zk = record w { store = others w.store; watches = w.watches } in
      case_Ends laws (left laws) w.store (zoo_exists zk false path w).0 _ _
        (later_Ends laws (left laws) w.store (others w.store) _ (others_calm w.store)
          (create_until_ok-Keeps fuel path value w2 h))
        (others_calm w.store)

  files_NoFile : NoFile laws g_path_files
  unfolding child
  files_NoFile f = ground arith

  works_NoFile : NoFile laws g_path_works
  unfolding child
  works_NoFile f = ground arith

  elect_NoFile : NoFile laws g_path_elect
  unfolding child
  elect_NoFile f = ground arith

  regist-Keeps :
      (localhost : Bytes) (w : World zk) → Keeps laws w.store (regist zk localhost w).store
  unfolding regist zoo_create child
  regist-Keeps localhost w =
      both laws
        (same_files laws w.store _ (λ f.
          laws.node-create_sequence w.store (child g_path_elect (codes "proc-"))
            (take 24 (pad 512 localhost)) (child g_path_files f) refl))
        (create_other laws _ (child g_path_works localhost) (codes "s")
          (λ f. works_ne_files localhost f))

  watch_all-store :
      (path : Bytes) (names : List Bytes) (b : Buffer) (w : World zk) (localhost : Bytes)
      → (watch_all zk localhost path names b w).store ≡ w.store
  unfolding watch_all zoo_get
  watch_all-store path [] b w localhost = refl
  watch_all-store path (name ∷ names) b w localhost = watch_all-store path names _ _ localhost

  monitor_work-Keeps :
      (localhost path : Bytes) (w : World zk)
      → Ends laws (left laws) w.store (monitor_work zk localhost path w)
  unfolding monitor_work zoo_get_children zoo_exists
  monitor_work-Keeps localhost path w =
      let w1 : World zk = (zoo_get_children zk true path w).1 in
      mode_Ends laws (left laws) w.store w.g_mode _ _
        (option_Ends laws (left laws) w.store (zk.get_children w.store path) _ (λ names.
          subst (λ s. Keeps laws w.store s)
            (sym (watch_all-store path names (zeroed 1024) w1 localhost)) (keep_all laws w.store)))
        (keep_all laws w.store)

  pub create_files-Keeps :
      (fuel : ℕ) (w : World zk) → Ends laws (left laws) w.store (create_files zk others fuel w)
  unfolding create_files
  create_files-Keeps fuel w = ensure-Keeps fuel g_path_files (codes "file") w files_NoFile

  pub prework-Keeps :
      (localhost : Bytes) (fuel : ℕ) (w : World zk)
      → Ends laws (left laws) w.store (prework zk localhost others fuel w)
  unfolding prework create_works create_elect
  prework-Keeps localhost fuel w =
      chain_Ends laws (left laws) (left laws) w.store _ _
        (ensure-Keeps fuel g_path_works (codes "work") w works_NoFile)
        (λ w1.
          chain_Ends laws (left laws) (left laws) w1.store _ _
            (ensure-Keeps fuel g_path_elect (codes "elct") w1 elect_NoFile)
            (λ w2.
              chain_Ends laws (left laws) (left laws) w2.store _ _
                (later_Ends laws (left laws) w2.store (regist zk localhost w2).store _
                  (regist-Keeps localhost w2)
                  (identify-Keeps laws localhost g_path_elect (regist zk localhost w2)))
                (λ w3. monitor_work-Keeps localhost g_path_works w3)))

  pub zktest_watcher_g-Keeps :
      (localhost : Bytes) (type : EventType) (connected : Bool) (path : Bytes) (w : World zk)
      → Ends laws (left laws) w.store (zktest_watcher_g zk localhost type connected path w)
  unfolding zktest_watcher_g recv_work zoo_get
  zktest_watcher_g-Keeps localhost type connected path w =
      let e_path = take 6 path in
      let on_works = bytes_eq e_path g_path_works in
      let on_elect = bytes_eq e_path g_path_elect in
      mode_Ends laws (left laws) w.store w.g_mode _ _
        (if_Ends laws (left laws) w.store
          (on_works && (is_child type && connected || is_changed type && connected)) _ _
          (dispatch_work-Keeps laws calm localhost w)
          (if_Ends laws (left laws) w.store (on_elect && (is_child type && connected)) _ _
            (reelect-Keeps laws localhost w) (keep_all laws w.store)))
        (if_Ends laws (left laws) w.store
          (on_works && (ltb 6 (length path) && (is_changed type && connected))) _ _
          (keep_all laws w.store)
          (if_Ends laws (left laws) w.store (on_elect && (is_child type && connected)) _ _
            (reelect-Keeps laws localhost w) (keep_all laws w.store)))
