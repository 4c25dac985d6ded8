-- ===== src/Work/Program/Completed.antt =====
-- The monitor and all the workers that it gave a file to: a dispatch, and then one round of each.
use distributed_task_dispath.Prelude.{
  ◌⊎◌, In, ℕ, suc, ◌≤◌, ◌<◌, true, false, List, some, ◌≡◌, ◌≢◌, refl, ap, sym, subst, ◌∙◌, inl, inr,
  arith, All, All-In, All-intro, All-keep, All-map, keep-In, Distinct, length, keep, Bool-cases,
}
use distributed_task_dispath.Bytes.{Bytes}
use distributed_task_dispath.Zookeeper.{Zookeeper, World, is_ok}
use distributed_task_dispath.Zookeeper.Closed.{SetClosed, WaitClosed, node-SetClosed}
use distributed_task_dispath.Zookeeper.Laws.{Laws, status, first_of_node}
use distributed_task_dispath.Cluster.Paths.{
  g_path_files, g_path_works, child, child_ne, works_ne_files, works_ne_root,
}
use distributed_task_dispath.Cluster.Dispatch.{dispatch_work}
use distributed_task_dispath.Cluster.Dispatch.Loops.{Sendable, waits, idle, Working}
use distributed_task_dispath.Cluster.Dispatch.Nodes.{
  Still, Elsewhere, In-deal, keep-All, keep-Distinct, idle-There,
}
use distributed_task_dispath.Cluster.Dispatch.Pairing.{Filed, deal}
use distributed_task_dispath.Cluster.Dispatch.Whole.{dispatched, dispatch_work-dispatched}
use distributed_task_dispath.Work.{Tools}
use distributed_task_dispath.Work.Command.{wk_command-to_string}
use distributed_task_dispath.Work.Program.Delivered.{calm, dispatched-sent, dispatched-Closed}
use distributed_task_dispath.Work.Program.Rounds.{
  rounds, IsTask, Given, Worked, deal_files, deal-Separate, deal_all, rounds-Worked,
}

-- What setting a worker's node or a file's node keeps, and a wait.
abbrev pub Preserved : (zk : Zookeeper) → zk.Store → zk.Store → Type 1
Preserved zk s t =
    (J : zk.Store → Type 0)
    → ((f : Bytes) → SetClosed zk J (child g_path_files f))
    → ((k : Bytes) → SetClosed zk J (child g_path_works k))
    → WaitClosed zk J
    → J s
    → J t

module _ {zk : Zookeeper} (laws : Laws zk) where
  -- The pairs of a dispatch.
  abbrev pub pairs : Bytes → List Bytes → List Bytes → zk.Store → List (Bytes × Bytes)
  pairs localhost fls wks s = deal (keep (waits laws s) fls) (keep (idle laws localhost s) wks)

  waits_there :
      (s : zk.Store) (f : Bytes) → waits laws s f ≡ true → 0 < status laws s (child g_path_files f)
  waits_there s f e = ground (arith, e)

  -- A file that does not wait is none of the pairs'.
  pub spared :
      (f : Bytes) (s : zk.Store) (fls free : List Bytes)
      → waits laws s f ≡ false
      → All (λ q. q.0 ≢ f) (deal (keep (waits laws s) fls) free)
  spared f s fls free no_way =
      All-map (λ q. waits laws s q.0 ≡ true) _ (deal (keep (waits laws s) fls) free)
        (λ q e same.
          let both : true ≡ false = sym e ∙ ap (λ x. waits laws s x) same ∙ no_way in absurd (cc))
        (deal_files (λ x. waits laws s x ≡ true) (keep (waits laws s) fls) free
          (keep-All (waits laws s) fls))

module _ {zk : Zookeeper} (laws : Laws zk) (still : Still laws) (tools : Tools) (fuel nap : ℕ)
    (disk : Bytes → tools.Disk) where
  open laws use {node}
  open tools use {Disk}

  sendable : (f : Bytes) → IsTask f → Sendable f
  sendable f (m, name, small) =
      subst (λ g. Sendable g) (sym name) (_, wk_command-to_string (suc m) small)

  -- What a dispatch leaves for the rounds.
  after_dispatch :
      (localhost : Bytes) (s t : zk.Store) (fls wks : List Bytes)
      → Distinct wks
      → All Sendable fls
      → t ≡ dispatched laws (keep (waits laws s) fls) (keep (idle laws localhost s) wks) s
      → All (Given laws t) (pairs laws localhost fls wks s)
        × ((p : Bytes) → Elsewhere laws p → node t p ≡ node s p)
        × Preserved zk s t
  after_dispatch localhost s t fls wks dw c store =
      let ready : List Bytes = keep (waits laws s) fls in
      let free : List Bytes = keep (idle laws localhost s) wks in
      let c' : All Sendable ready = All-keep Sendable (waits laws s) fls c in
      let elsewhere : (p : Bytes) → Elsewhere laws p → node t p ≡ node s p = λ p h.
        ap (λ x. node x p) store
        ∙ dispatched-Closed laws still (λ x. node x p ≡ node s p) ready free s
            (λ wk. node-SetClosed laws p (child g_path_works wk) (node s p) (h wk))
            (λ n x e. still n x p ∙ e) c' refl in
      let file_now : (f : Bytes)
          → status laws t (child g_path_files f) ≡ status laws s (child g_path_files f) =
        λ f. ap first_of_node (elsewhere (child g_path_files f) (λ wk. works_ne_files wk f)) in
      (
        All-intro (Given laws t) (deal ready free) λ q i. (
          ap (λ x. node x (child g_path_works q.1)) store
              ∙ dispatched-sent laws still q.0 q.1 ready free s
                  (keep-Distinct (idle laws localhost s) wks dw)
                  (idle-There laws localhost s free (keep-All (idle laws localhost s) wks)) i,
          subst (λ n. 0 < n) (sym (file_now q.0))
              (waits_there laws s q.0 (
                All-In (λ x. waits laws s x ≡ true) ready (In-deal q.0 q.1 ready free i).0
                  (keep-All (waits laws s) fls))),
        ),
        elsewhere,
        λ J by_file by_worker by_wait h.
            subst (λ x. J x) (sym store)
              (dispatched-Closed laws still J ready free s by_worker by_wait c' h),
      )

  -- A dispatch, and the rounds of the workers that got a file.
  pub one_cycle :
      (localhost : Bytes) (w : World zk) (fls wks : List Bytes)
      → zk.get_children w.store g_path_files ≡ some fls
      → zk.get_children w.store g_path_works ≡ some wks
      → All IsTask fls
      → Filed laws w.store fls
      → Working laws w.store wks
      → Distinct fls
      → Distinct wks
      → is_ok (node w.store g_path_files) ≡ true
      → (w' : World zk) × (t : zk.Store) × (dispatch_work zk localhost w ≡ some w')
        × (rounds zk tools fuel nap disk (pairs laws localhost fls wks w.store) w'.store ≡ some t)
        × All (Worked laws tools disk t) (pairs laws localhost fls wks w.store)
        × ((f : Bytes)
            → All (λ q. q.0 ≢ f) (pairs laws localhost fls wks w.store)
            → node t (child g_path_files f) ≡ node w.store (child g_path_files f))
        × Preserved zk w.store t
  one_cycle localhost w fls wks ef ew good hf hw df dw root =
      let ready : List Bytes = keep (waits laws w.store) fls in
      let free : List Bytes = keep (idle laws localhost w.store) wks in
      let c : All Sendable fls = All-map _ _ fls (λ f g. sendable f g) good in
      let (w', run, store) =
        dispatch_work-dispatched laws (calm laws still) localhost w fls wks ef ew c hf hw dw in
      let (given, elsewhere, preserved) =
        after_dispatch localhost w.store w'.store fls wks dw c store in
      let (t, after, finished, frame, preserved') =
        rounds-Worked laws still tools fuel nap disk (deal ready free) w'.store
          (ap is_ok (elsewhere g_path_files works_ne_root) ∙ root)
          (deal_files IsTask ready free (All-keep IsTask (waits laws w.store) fls good)) given
          (deal-Separate ready free (keep-Distinct (waits laws w.store) fls df)
            (keep-Distinct (idle laws localhost w.store) wks dw)) in
      (
        w',
        t,
        run,
        after,
        finished,
        λ f off.
            frame (child g_path_files f) (
              All-map _ _ (deal ready free)
                (λ q n. (child_ne g_path_files q.0 f n, works_ne_files q.1 f)) off)
            ∙ elsewhere (child g_path_files f) (λ wk. works_ne_files wk f),
        λ J by_file by_worker by_wait h.
            preserved' J by_file by_worker by_wait (preserved J by_file by_worker by_wait h),
      )

  -- On distinct names whose nodes hold data, with the nodes left alone by others while the monitor
  -- and the workers sleep, let every file be that of a task that is not 0, and let no more files wait
  -- than workers other than the monitor are idle. `csv_recovery` is whatever gives a number. Then a
  -- dispatch returns, and so does one round of each worker that got a file, in the order of the
  -- files. After that every file that waited is with one worker; each such file is done (g) and the
  -- worker idle (s) if the worker's last try gave 0, and the file is in work (y) and the worker keeps
  -- its command (w) if not; and every file that did not wait has the status that it had.
  pub dispatch_work-rounds :
      (localhost : Bytes) (w : World zk) (fls wks : List Bytes)
      → zk.get_children w.store g_path_files ≡ some fls
      → zk.get_children w.store g_path_works ≡ some wks
      → All IsTask fls
      → Filed laws w.store fls
      → Working laws w.store wks
      → Distinct fls
      → Distinct wks
      → is_ok (node w.store g_path_files) ≡ true
      → length (keep (waits laws w.store) fls) ≤ length (keep (idle laws localhost w.store) wks)
      → (w' : World zk) × (t : zk.Store) × (dispatch_work zk localhost w ≡ some w')
        × (rounds zk tools fuel nap disk (pairs laws localhost fls wks w.store) w'.store ≡ some t)
        × All (Worked laws tools disk t) (pairs laws localhost fls wks w.store)
        × All
            (λ f.
              ((waits laws w.store f ≡ true)
                × (k : Bytes) × In (f, k) (pairs laws localhost fls wks w.store))
              ⊎ ((waits laws w.store f ≡ false)
                  × (status laws t (child g_path_files f)
                      ≡ status laws w.store (child g_path_files f))))
            fls
  dispatch_work-rounds localhost w fls wks ef ew tasks hf hw df dw root enough =
      let ready : List Bytes = keep (waits laws w.store) fls in
      let free : List Bytes = keep (idle laws localhost w.store) wks in
      let (w', t, run, after, worked, frame, preserved) =
        one_cycle localhost w fls wks ef ew tasks hf hw df dw root in
      (
        w',
        t,
        run,
        after,
        worked,
        All-intro _ fls λ f i. elim (Bool-cases (waits laws w.store f)) [
          | inl yes_waits ↦
              let (k, j) =
                deal_all f ready free enough (keep-In (waits laws w.store) f fls yes_waits i) in
              inl (yes_waits, k, j)
          | inr no_way ↦
              inr (no_way, ap first_of_node (frame f (spared laws f w.store fls free no_way)))
        ],
      )
