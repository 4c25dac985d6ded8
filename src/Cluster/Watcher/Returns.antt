-- ===== src/Cluster/Watcher/Returns.antt =====
-- What the branches of the handler leave of the watches, and when they return.
use distributed_task_dispath.Prelude.{
  ℕ, Bool, true, false, List, [], ◌∷◌, Option, some, ◌≡◌, refl, subst, sym, inl, inr, Bool-cases,
  All, In, length, replicate, ◌==◌, if◌then◌else◌,
}
use distributed_task_dispath.Bytes.{Bytes, bytes_eq, c_str}
use distributed_task_dispath.Zookeeper.{
  Zookeeper, World, WorkMode, mode_monitor, mode_worker, on_children, zoo_get, zoo_get_children,
  zoo_set, zoo_delete, first, zeroed,
}
use distributed_task_dispath.Cluster.Paths.{g_path_elect, g_path_works, g_path_files, child}
use distributed_task_dispath.Cluster.Dispatch.Loops.{Sendable}
use distributed_task_dispath.Cluster.Dispatch.Watched.{Grows}
use distributed_task_dispath.Cluster.Elect.{choose_mater, least}
use distributed_task_dispath.Cluster.Recover.{
  member, give_up_own, read_elect, clear_worker, clear_workers, recover, take_over, reelect,
}

-- As long as `J` holds, the roots can be listed and a command can be written for each file; setting
-- a node does not change that.
pub record Serves (zk : Zookeeper) (J : zk.Store → Type 0) : Type 0 where
  pub by_set : (s : zk.Store) (p d : Bytes) → J s → J (zk.set s p d).0
  pub elect :
      (s : zk.Store) → J s → (names : List Bytes) × (zk.get_children s g_path_elect ≡ some names)
  pub works :
      (s : zk.Store) → J s → (names : List Bytes) × (zk.get_children s g_path_works ≡ some names)
  pub files :
      (s : zk.Store)
      → J s
      → (names : List Bytes) × (zk.get_children s g_path_files ≡ some names) × All Sendable names

module _ {zk : Zookeeper} (localhost : Bytes) where
  -- A run that returns and gives up no watch.
  abbrev pub Returns : World zk → Option (World zk) → Type 0
  Returns w o = (w' : World zk) × (o ≡ some w') × Grows w w'

  if_Grows :
      (w : World zk) (b : Bool) (x y : World zk)
      → Grows w x
      → Grows w y
      → Grows w (if b then x else y)
  if_Grows w true x y gx gy = gx
  if_Grows w false x y gx gy = gy

  case_Grows :
      (w : World zk) (b : Bool) (x y : World zk)
      → Grows w x
      → Grows w y
      → Grows w (elim b [ true ↦ x | false ↦ y ])
  case_Grows w true x y gx gy = gx
  case_Grows w false x y gx gy = gy

  pub choose_mater-Returns :
      (path : Bytes) (ps : List Bytes) (w : World zk)
      → zk.get_children w.store path ≡ some ps
      → (w' : World zk) × (choose_mater zk localhost path w ≡ some w')
        × Grows w w'
        × (w'.store ≡ w.store)
  unfolding choose_mater zoo_get_children zoo_get
  choose_mater-Returns path [] w e =
      let w1 : World zk = (zoo_get_children zk true path w).1 in (w1, rw e refl, λ h i. inr i, refl)
  choose_mater-Returns path (p ∷ rest) w e =
      let w1 : World zk = (zoo_get_children zk true path w).1 in
      let (ret, ip_pid, w2) = zoo_get zk false (child path (least p rest)) (zeroed 64) w1 in
      elim (Bool-cases ret) [
        | inl ok ↦ (
          record w2 {
            g_mode = if bytes_eq (c_str ip_pid.bytes) localhost then mode_monitor else mode_worker;
          },
          rw (e, ok) refl,
          λ h i. inr i,
          refl,
        )
        | inr failed ↦ (w2, rw (e, failed) refl, λ h i. inr i, refl)
      ]

  give_up_own-Grows : (w : World zk) → Grows w (give_up_own zk localhost w)
  unfolding give_up_own zoo_get zoo_set
  give_up_own-Grows w =
      if_Grows w
        (first (zoo_get zk true (child g_path_works localhost) (zeroed 64) w).1.bytes == b'w') _ _
        (λ h i. inr i) (λ h i. inr i)

  read_elect-Grows :
      (ps : List Bytes) (n : ℕ) (dct : List Bytes) (w : World zk)
      → Grows w (read_elect zk localhost ps n dct w).1
  unfolding read_elect zoo_get
  read_elect-Grows [] n dct w = λ h i. i
  read_elect-Grows (p ∷ ps) n dct w = read_elect-Grows ps _ _ w

  clear_worker-Grows :
      (wk : Bytes) (n : ℕ) (w : World zk) → Grows w (clear_worker zk localhost wk n w).1
  unfolding clear_worker zoo_get zoo_set zoo_delete
  clear_worker-Grows wk n w =
      if_Grows w
        (first
            (zoo_get zk false (child g_path_works wk)
              (record { bytes = replicate 64 b'0'; len = n }) w).1.bytes
          == b'w')
        _ _ (λ h i. i) (λ h i. i)

  clear_workers-Grows :
      (dct wks : List Bytes) (n : ℕ) (w : World zk)
      → Grows w (clear_workers zk localhost dct wks n w)
  unfolding clear_workers
  clear_workers-Grows dct [] n w = λ h i. i
  clear_workers-Grows dct (wk ∷ wks) n w =
      let (len, w') = clear_worker zk localhost wk n w in
      case_Grows w (member wk dct) _ _ (clear_workers-Grows dct wks n w)
        (λ h i. clear_workers-Grows dct wks len w' h (clear_worker-Grows wk n w h i))

  give_up_own-kept :
      (J : zk.Store → Type 0) (w : World zk)
      → ((s : zk.Store) (p d : Bytes) → J s → J (zk.set s p d).0)
      → J w.store
      → J (give_up_own zk localhost w).store
  unfolding give_up_own zoo_get zoo_set
  give_up_own-kept J w by_set h =
      by_test (first (zoo_get zk true (child g_path_works localhost) (zeroed 64) w).1.bytes == b'w')
        _ _ (by_set _ _ _ (by_set _ _ _ h)) h
    where
      by_test : (b : Bool) (x y : World zk) → J x.store → J y.store → J (if b then x else y).store
      by_test true x y hx hy = hx
      by_test false x y hx hy = hy

  read_elect_store :
      (ps : List Bytes) (n : ℕ) (dct : List Bytes) (w : World zk)
      → (read_elect zk localhost ps n dct w).1.store ≡ w.store
  unfolding read_elect zoo_get
  read_elect_store [] n dct w = refl
  read_elect_store (p ∷ ps) n dct w = read_elect_store ps _ _ w

  recover-Returns :
      (J : zk.Store → Type 0) (w : World zk)
      → Serves zk J
      → J w.store
      → Returns w (recover zk localhost w)
  unfolding recover zoo_get_children
  recover-Returns J w up h =
      let w0 : World zk = give_up_own zk localhost w in
      let w1 : World zk = (zoo_get_children zk true g_path_elect w0).1 in
      let h0 : J w0.store = give_up_own-kept J w up.by_set h in
      let (ps, ep) = up.elect w0.store h0 in
      let (dct, w2) = read_elect zk localhost ps 64 [] w1 in
      let w3 : World zk = (zoo_get_children zk true g_path_works w2).1 in
      let (ks, ek) = up.works w2.store (subst (λ s. J s) (sym (read_elect_store ps 64 [] w1)) h0) in
      (
        clear_workers zk localhost dct ks 64 w3,
        rw (ep, ek) refl,
        λ h i.
            clear_workers-Grows dct ks 64 w3 h
              (inr (read_elect-Grows ps 64 [] w1 h (inr (give_up_own-Grows w h i)))),
      )

  take_over-Returns :
      (J : zk.Store → Type 0) (w : World zk) (m : WorkMode)
      → Serves zk J
      → J w.store
      → Returns w (elim m [ mode_monitor ↦ recover zk localhost w | mode_worker ↦ some w ])
  take_over-Returns J w mode_monitor up h = recover-Returns J w up h
  take_over-Returns J w mode_worker up h = (w, refl, λ h i. i)

  -- It asks for both roots again, whatever it finds.
  pub reelect-Returns :
      (J : zk.Store → Type 0) (w : World zk)
      → Serves zk J
      → J w.store
      → (w' : World zk) × (reelect zk localhost w ≡ some w')
        × Grows w w'
        × In (on_children g_path_elect) w'.watches
        × In (on_children g_path_works) w'.watches
  unfolding reelect zoo_get_children take_over
  reelect-Returns J w up h =
      let w1 : World zk = (zoo_get_children zk true g_path_elect w).1 in
      let w2 : World zk = (zoo_get_children zk true g_path_works w1).1 in
      let (es, ee) = up.elect w.store h in
      let (ks, ek) = up.works w.store h in
      elim (Bool-cases (length es == length ks)) [
        | inl equal ↦ (w2, rw (ee, ek, equal) refl, λ h i. inr (inr i), inr (inl refl), inl refl)
        | inr other ↦
            let (w3, chosen, grows, same) = choose_mater-Returns g_path_elect es w2 ee in
            let (w4, done, grows') =
              take_over-Returns J w3 w3.g_mode up (subst (λ s. J s) (sym same) h) in
            (
              w4,
              rw (ee, ek, other, chosen, take_over) done,
              λ h i. grows' h (grows h (inr (inr i))),
              grows' _ (grows _ (inr (inl refl))),
              grows' _ (grows _ (inl refl)),
            )
      ]
