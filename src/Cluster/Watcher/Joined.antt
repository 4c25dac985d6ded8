-- ===== src/Cluster/Watcher/Joined.antt =====
-- The start of a process, `PREWORK` of _zk_server/clust_comm.cpp, as a whole.
use distributed_task_dispath.Prelude.{
  ℕ, true, List, [], ◌∷◌, some, ◌≡◌, refl, sym, ◌∙◌, subst, inl, inr, In, All, All-map, ◌≤◌, length,
}
use distributed_task_dispath.Bytes.{Bytes}
use distributed_task_dispath.Bytes.Search.{Lacks}
use distributed_task_dispath.Zookeeper.{
  Zookeeper, World, WorkMode, mode_monitor, mode_worker, Buffer, on_data, on_children, is_ok,
  zeroed, zoo_get, zoo_get_children, zoo_exists,
}
use distributed_task_dispath.Zookeeper.Laws.{Laws}
use distributed_task_dispath.Zookeeper.Joining.{Joining, Listed}
use distributed_task_dispath.Cluster.Paths.{g_path_elect, g_path_works, child}
use distributed_task_dispath.Cluster.Dispatch.Watched.{Grows, Watched}
use distributed_task_dispath.Cluster.Files.{ensure, create_works, create_elect}
use distributed_task_dispath.Cluster.Register.{regist, watch_all, monitor_work}
use distributed_task_dispath.Cluster.Watcher.{prework}
use distributed_task_dispath.Cluster.Watcher.Registered.{Roots, Registered, regist-Registered}
use distributed_task_dispath.Cluster.Watcher.Elected.{Role, identify-Elected}

module _ {zk : Zookeeper} {laws : Laws zk} (joining : Joining laws) (localhost : Bytes) where
  -- The watches with which a process goes into the work: the monitor's on the workers, a worker's
  -- on its node.
  abbrev pub Asks : List Bytes → World zk → WorkMode → Type 0
  Asks wks w mode_monitor =
      In (on_children g_path_works) w.watches × All (Watched w) (localhost ∷ wks)
  Asks wks w mode_worker = Watched w localhost

  watch_all-Watched :
      (ks : List Bytes) (b : Buffer) (w : World zk)
      → Grows w (watch_all zk localhost g_path_works ks b w)
        × ((k : Bytes) → In k ks → Watched (watch_all zk localhost g_path_works ks b w) k)
        × ((watch_all zk localhost g_path_works ks b w).store ≡ w.store)
        × ((watch_all zk localhost g_path_works ks b w).g_mode ≡ w.g_mode)
  unfolding watch_all zoo_get
  watch_all-Watched [] b w = (λ h i. i, λ k i. absurd i, refl, refl)
  watch_all-Watched (k ∷ ks) b w =
      let (ret, b', w') = zoo_get zk true (child g_path_works k) b w in
      let (grows, all, same, mode) = watch_all-Watched ks b' w' in
      (
        λ h i. grows h (inr i),
        by_key w' (watch_all zk localhost g_path_works ks b' w') grows (inl refl) all,
        same,
        mode,
      )
    where
      by_key :
          (w1 w2 : World zk)
          → Grows w1 w2
          → In (on_data (child g_path_works k)) w1.watches
          → ((q : Bytes) → In q ks → Watched w2 q)
          → (q : Bytes) → In q (k ∷ ks)
          → Watched w2 q
      by_key w1 w2 grows here all q (inl e) = subst (Watched w2) e (grows _ here)
      by_key w1 w2 grows here all q (inr i) = all q i

  ensure_there :
      (fuel : ℕ) (path value : Bytes) (w : World zk)
      → is_ok (laws.node w.store path) ≡ true
      → ensure zk (λ s. s) fuel path value w ≡ some w
  unfolding ensure zoo_exists
  ensure_there fuel path value w there = rw (laws.has_node_lem w.store path, there) refl

  monitor_work-Asks :
      (mode : WorkMode) (wks : List Bytes) (w : World zk)
      → w.g_mode ≡ mode
      → Listed localhost wks (zk.get_children w.store g_path_works)
      → (w' : World zk) × (monitor_work zk localhost g_path_works w ≡ some w')
        × (w'.store ≡ w.store)
        × (w'.g_mode ≡ mode)
        × Grows w w'
        × Asks wks w' mode
  unfolding monitor_work zoo_get_children zoo_exists
  monitor_work-Asks mode_monitor wks w m (ms, e, into, from) =
      let w1 : World zk = (zoo_get_children zk true g_path_works w).1 in
      let (grows, all, same, kept) = watch_all-Watched ms (zeroed 1024) w1 in
      (
        watch_all zk localhost g_path_works ms (zeroed 1024) w1,
        rw (m, e) refl,
        same,
        kept ∙ m,
        λ h i. grows h (inr i),
        (grows _ (inl refl), All-map (λ k. In k ms) _ (localhost ∷ wks) all into),
      )
  monitor_work-Asks mode_worker wks w m listed = (
    (zoo_exists zk true (child g_path_works localhost) w).1,
    rw m refl,
    refl,
    m,
    λ h i. inr i,
    inl refl,
  )

  -- A process starts, with a name of at most 24 bytes, without zeros and slashes, that no worker has.
  -- Both roots are there, and nobody else changes the store meanwhile. Then `PREWORK` returns. The
  -- process has its node in the election, with its name, and is listed as an idle worker. If there
  -- was no node in the election, it is the monitor, and has watches on the list of the workers and on
  -- each worker; if the least node, its own included, holds another name of at most 24 bytes without
  -- zeros, it is a worker, and has a watch on its own node. In either case it has a watch on the
  -- election.
  pub prework-joins :
      (names wks : List Bytes) (mode : WorkMode) (fuel : ℕ) (w : World zk)
      → length localhost ≤ 24
      → Lacks 0 localhost
      → Lacks b'/' localhost
      → Roots joining w.store localhost names wks
      → Role joining localhost w.store names mode
      → (w' : World zk) × (prework zk localhost (λ s. s) fuel w ≡ some w')
        × Registered joining w.store localhost names wks w'.store
        × (w'.g_mode ≡ mode)
        × In (on_children g_path_elect) w'.watches
        × Asks wks w' mode
  unfolding prework create_works create_elect
  prework-joins names wks mode fuel w short text plain roots role =
      let w1 : World zk = regist zk localhost w in
      let (r, _) = regist-Registered joining localhost names wks w plain roots in
      let (w2, run2, same2, mode2, asked2) =
        identify-Elected joining localhost w.store names wks mode w1 short text r role in
      let r2 = subst (λ s. Registered joining w.store localhost names wks s) (sym same2) r in
      let (w3, run3, same3, mode3, grows3, asks) = monitor_work-Asks mode wks w2 mode2 r2.works in
      (
        w3,
        rw
            (
              ensure_there fuel g_path_works _ w roots.works,
              ensure_there fuel g_path_elect _ w roots.elect,
              run2,
            )
            run3,
        subst (λ s. Registered joining w.store localhost names wks s) (sym same3) r2,
        mode3,
        grows3 _ asked2,
        asks,
      )
