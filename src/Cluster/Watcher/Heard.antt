-- ===== src/Cluster/Watcher/Heard.antt =====
-- The handler of the events and its watches: which of them are asked for again.
use distributed_task_dispath.Prelude.{
  Bool, true, false, ◌&&◌, ◌||◌, List, [], ◌∷◌, Option, some, ◌≡◌, ◌∙◌, refl, subst, sym, ap, ◌⊎◌,
  arith, inl, inr, All, All-In, In, Bool-cases, length, ltb, take, if◌then◌else◌,
}
use distributed_task_dispath.Bytes.{Bytes, bytes_eq}
use distributed_task_dispath.Bytes.Equality.{bytes_eq→eq}
use distributed_task_dispath.Zookeeper.{
  Zookeeper, World, Watch, WorkMode, mode_monitor, mode_worker, on_data, on_children, zoo_get,
}
use distributed_task_dispath.Cluster.Paths.{g_path_elect, g_path_works, child}
use distributed_task_dispath.Cluster.Dispatch.{dispatch_work}
use distributed_task_dispath.Cluster.Dispatch.Watched.{Grows, Watched, dispatch_work-Watched}
use distributed_task_dispath.Cluster.Recover.{reelect}
use distributed_task_dispath.Cluster.Watcher.{
  EventType, child_event, changed_event, other_event, is_child, is_changed, zktest_watcher_g,
}
use distributed_task_dispath.Cluster.Worker.{recv_work}
use distributed_task_dispath.Cluster.Watcher.Returns.{Serves, reelect-Returns}

own_node : (k : Bytes) → bytes_eq (take 6 (child g_path_works k)) g_path_works ≡ true
unfolding child
own_node k = refl

longer : (k : Bytes) → ltb 6 (length (child g_path_works k)) ≡ true
unfolding child
longer k = ground arith

-- The watches on the names below the two roots and on the nodes there, which are all that a process
-- asks for in the session of this handler, with the events that fire them. Any other event has
-- another type.
pub data Fires : EventType → Bytes → Watch → Type 0 where
  election : (path : Bytes) → path ≡ g_path_elect → Fires child_event path (on_children path)
  workers : (path : Bytes) → path ≡ g_path_works → Fires child_event path (on_children path)
  candidate :
      (k path : Bytes) → path ≡ child g_path_elect k → Fires changed_event path (on_data path)
  worker : (k path : Bytes) → path ≡ child g_path_works k → Fires changed_event path (on_data path)
  others : (path : Bytes) (h : Watch) → Fires other_event path h

-- A name is listed or not.
is_listed : (k : Bytes) (names : List Bytes) → In k names ⊎ All (λ n. bytes_eq n k ≡ false) names
is_listed k [] = inr tt
is_listed k (n ∷ names) = elim (Bool-cases (bytes_eq n k)) [
  | inl same ↦ inl (inl (bytes_eq→eq n k same))
  | inr other ↦ elim (is_listed k names) [ inl i ↦ inl (inr i) | inr off ↦ inr (other, off) ]
]

module _ {zk : Zookeeper} (localhost : Bytes) where
  abbrev as_monitor : EventType → Bytes → World zk → Option (World zk)
  as_monitor type path w =
      let e_path = take 6 path in
      if bytes_eq e_path g_path_works && (is_child type && true || is_changed type && true)
      then dispatch_work zk localhost w
      else if bytes_eq e_path g_path_elect && (is_child type && true)
      then reelect zk localhost w
      else some w

  abbrev as_worker : EventType → Bytes → World zk → Option (World zk)
  as_worker type path w =
      let e_path = take 6 path in
      if bytes_eq e_path g_path_works && (ltb 6 (length path) && (is_changed type && true))
      then some (recv_work zk localhost w).1
      else if bytes_eq e_path g_path_elect && (is_child type && true)
      then reelect zk localhost w
      else some w

  -- The handler runs in one of two ways.
  by_mode :
      (type : EventType) (path : Bytes) (w : World zk) (m : WorkMode)
      → w.g_mode ≡ m
      → zktest_watcher_g zk localhost type true path w
        ≡ elim m [ mode_monitor ↦ as_monitor type path w | mode_worker ↦ as_worker type path w ]
  unfolding zktest_watcher_g
  by_mode type path w m e =
      ap
        (λ x. elim x [
          | mode_monitor ↦ as_monitor type path w
          | mode_worker ↦ as_worker type path w
        ])
        e

  -- The events after which the watch is not asked for: a worker passes over a change of the list of
  -- the workers, all pass over a change of a node of the election and the events of another type, a
  -- worker reads its own node where another worker's has changed, and the monitor dispatches
  -- without the nodes that are no longer listed.
  pub data NotAgain (w w' : World zk) : EventType → Bytes → Type 0 where
    workers_passed : w.g_mode ≡ mode_worker → w' ≡ w → NotAgain w w' child_event g_path_works
    candidate_passed :
        (k path : Bytes) → path ≡ child g_path_elect k → w' ≡ w → NotAgain w w' changed_event path
    others_passed : (path : Bytes) → w' ≡ w → NotAgain w w' other_event path
    another_worker :
        (k path : Bytes)
        → path ≡ child g_path_works k
        → w.g_mode ≡ mode_worker
        → bytes_eq k localhost ≡ false
        → w' ≡ (recv_work zk localhost w).1
        → NotAgain w w' changed_event path
    unlisted :
        (k path : Bytes) (names : List Bytes)
        → path ≡ child g_path_works k
        → w.g_mode ≡ mode_monitor
        → zk.get_children w.store g_path_works ≡ some names
        → All (λ n. bytes_eq n k ≡ false) names
        → dispatch_work zk localhost w ≡ some w'
        → NotAgain w w' changed_event path

  dispatch-Asked :
      (J : zk.Store → Type 0) (w : World zk) (wks : List Bytes)
      → Serves zk J
      → J w.store
      → zk.get_children w.store g_path_works ≡ some wks
      → (w' : World zk) × (dispatch_work zk localhost w ≡ some w')
        × In (on_children g_path_works) w'.watches
        × All (Watched w') wks
        × Grows w w'
  dispatch-Asked J w wks up j ew =
      let (fls, ef, c) = up.files w.store j in dispatch_work-Watched localhost w fls wks ef ew c

  monitor_reads :
      (k : Bytes) (w : World zk)
      → as_monitor changed_event (child g_path_works k) w ≡ dispatch_work zk localhost w
  unfolding child
  monitor_reads k w = refl

  recv_work-Asked :
      (w : World zk)
      → Grows w (recv_work zk localhost w).1
        × In (on_data (child g_path_works localhost)) (recv_work zk localhost w).1.watches
  unfolding recv_work zoo_get
  recv_work-Asked w = (λ h i. inr i, inl refl)

  -- An event that neither part of the handler takes up.
  passed_monitor :
      (a b : Bool) (x y z : Option (World zk))
      → (if a && false then x else if b && false then y else z) ≡ z
  passed_monitor true true x y z = refl
  passed_monitor true false x y z = refl
  passed_monitor false true x y z = refl
  passed_monitor false false x y z = refl

  passed_worker :
      (a b c : Bool) (x y z : Option (World zk))
      → (if a && (c && false) then x else if b && false then y else z) ≡ z
  passed_worker false b c x y z = passed_monitor false b x y z
  passed_worker true b true x y z = passed_monitor true b x y z
  passed_worker true b false x y z = passed_monitor true b x y z

  others_pass :
      (path : Bytes) (w : World zk) (m : WorkMode)
      → w.g_mode ≡ m
      → zktest_watcher_g zk localhost other_event true path w ≡ some w
  others_pass path w mode_monitor m =
      by_mode other_event path w mode_monitor m
      ∙ passed_monitor (bytes_eq (take 6 path) g_path_works) (bytes_eq (take 6 path) g_path_elect)
          (dispatch_work zk localhost w) (reelect zk localhost w) (some w)
  others_pass path w mode_worker m =
      by_mode other_event path w mode_worker m
      ∙ passed_worker (bytes_eq (take 6 path) g_path_works) (bytes_eq (take 6 path) g_path_elect)
          (ltb 6 (length path)) (some (recv_work zk localhost w).1) (reelect zk localhost w)
          (some w)

  candidates_pass :
      (k : Bytes) (w : World zk) (m : WorkMode)
      → w.g_mode ≡ m
      → zktest_watcher_g zk localhost changed_event true (child g_path_elect k) w ≡ some w
  unfolding child
  candidates_pass k w mode_monitor m = by_mode changed_event (child g_path_elect k) w mode_monitor m
  candidates_pass k w mode_worker m = by_mode changed_event (child g_path_elect k) w mode_worker m

  worker_reads_any :
      (k : Bytes) (w : World zk)
      → as_worker changed_event (child g_path_works k) w ≡ some (recv_work zk localhost w).1
  worker_reads_any k w = rw (own_node k, longer k) refl

  -- What an event comes to: the handler returns, gives up no watch, and asks for the one that
  -- fired again, but for the events above.
  abbrev pub Heard : EventType → Bytes → World zk → Watch → Type 0
  Heard type path w h =
      (w' : World zk) × (zktest_watcher_g zk localhost type true path w ≡ some w')
      × Grows w w'
      × (In h w'.watches ⊎ NotAgain w w' type path)

  election_Heard :
      (J : zk.Store → Type 0) (w : World zk) (m : WorkMode)
      → w.g_mode ≡ m
      → Serves zk J
      → J w.store
      → Heard child_event g_path_elect w (on_children g_path_elect)
  election_Heard J w mode_monitor m up j =
      let (w', run, grows, elect, works) = reelect-Returns localhost J w up j in
      (w', by_mode child_event g_path_elect w mode_monitor m ∙ run, grows, inl elect)
  election_Heard J w mode_worker m up j =
      let (w', run, grows, elect, works) = reelect-Returns localhost J w up j in
      (w', by_mode child_event g_path_elect w mode_worker m ∙ run, grows, inl elect)

  workers_Heard :
      (J : zk.Store → Type 0) (w : World zk) (m : WorkMode)
      → w.g_mode ≡ m
      → Serves zk J
      → J w.store
      → Heard child_event g_path_works w (on_children g_path_works)
  workers_Heard J w mode_monitor m up j =
      let (wks, ew) = up.works w.store j in
      let (w', run, works, all, grows) = dispatch-Asked J w wks up j ew in
      (w', by_mode child_event g_path_works w mode_monitor m ∙ run, grows, inl works)
  workers_Heard J w mode_worker m up j = (
    w,
    by_mode child_event g_path_works w mode_worker m ∙ passed_list,
    λ h i. i,
    inr (workers_passed m refl),
  )
    where
      passed_list : as_worker child_event g_path_works w ≡ some w
      passed_list = refl

  worker_Heard :
      (J : zk.Store → Type 0) (k : Bytes) (w : World zk) (m : WorkMode)
      → w.g_mode ≡ m
      → Serves zk J
      → J w.store
      → Heard changed_event (child g_path_works k) w (on_data (child g_path_works k))
  worker_Heard J k w mode_monitor m up j =
      let (names, en) = up.works w.store j in
      let (w', run, works, all, grows) = dispatch-Asked J w names up j en in
      (
        w',
        by_mode changed_event (child g_path_works k) w mode_monitor m ∙ monitor_reads k w ∙ run,
        grows,
        elim (is_listed k names) [
          | inl i ↦ inl (All-In (Watched w') names i all)
          | inr off ↦ inr (unlisted k (child g_path_works k) names refl m en off run)
        ],
      )
  worker_Heard J k w mode_worker m up j =
      let w' : World zk = (recv_work zk localhost w).1 in
      (
        w',
        by_mode changed_event (child g_path_works k) w mode_worker m ∙ worker_reads_any k w,
        (recv_work-Asked w).0,
        elim (Bool-cases (bytes_eq k localhost)) [
          | inl same ↦ inl (
              subst (λ q. In (on_data (child g_path_works q)) w'.watches)
                (sym (bytes_eq→eq k localhost same)) (recv_work-Asked w).1)
          | inr other ↦ inr (another_worker k (child g_path_works k) refl m other refl)
        ],
      )

  -- Let an event come while the session is connected, of a watch on the names below a root or on a
  -- node there, whatever watches are left. Then the handler returns and gives up no watch. It asks for the watch
  -- that fired again, unless the process is a worker and the event is of the list of the workers or
  -- of another worker's node, or it is the monitor and the node is one that is not listed, or the
  -- event is of a node of the election or of another type; the first and the last two of these
  -- change nothing at all. The roots can be listed and a command can be written for each file as
  -- long as `J` holds, which setting a node does not change.
  pub zktest_watcher_g-Heard :
      (J : zk.Store → Type 0) (w : World zk) (type : EventType) (path : Bytes) (h : Watch)
      → Serves zk J
      → J w.store
      → Fires type path h
      → (w' : World zk) × (zktest_watcher_g zk localhost type true path w ≡ some w')
        × Grows w w'
        × (In h w'.watches ⊎ NotAgain w w' type path)
  zktest_watcher_g-Heard J w _ _ _ up j (election path e) =
      subst (λ p. Heard child_event p w (on_children p)) (sym e)
        (election_Heard J w w.g_mode refl up j)
  zktest_watcher_g-Heard J w _ _ _ up j (workers path e) =
      subst (λ p. Heard child_event p w (on_children p)) (sym e)
        (workers_Heard J w w.g_mode refl up j)
  zktest_watcher_g-Heard J w _ _ _ up j (candidate k path e) =
      subst (λ p. Heard changed_event p w (on_data p)) (sym e)
        (
          w,
          candidates_pass k w w.g_mode refl,
          λ h i. i,
          inr (candidate_passed k (child g_path_elect k) refl refl),
        )
  zktest_watcher_g-Heard J w _ _ _ up j (worker k path e) =
      subst (λ p. Heard changed_event p w (on_data p)) (sym e)
        (worker_Heard J k w w.g_mode refl up j)
  zktest_watcher_g-Heard J w _ _ _ up j (others path h) =
      (w, others_pass path w w.g_mode refl, λ h i. i, inr (others_passed path refl))
