-- ===== src/Cluster/Recover/Whole.antt =====
-- A whole run of `recover`: the names in the election are read back, the workers that are not among
-- them lose their nodes, and no file goes back to the queue.
use mathlib.Core.Option
use distributed_task_dispath.Prelude.{
  All-In, ℕ, ◌≤◌, true, false, List, [], ◌∷◌, none, some, ◌≡◌, ◌≢◌, refl, ap, sym, ◌∙◌, inl, inr,
  arith, take, length, Bool-cases, subst, take_all, if◌then◌else◌, All, All-map, Distinct, In,
}
use distributed_task_dispath.Bytes.{Bytes}
use distributed_task_dispath.Bytes.Search.{Lacks}
use distributed_task_dispath.Zookeeper.{
  Zookeeper, World, pad, on_children, zoo_get, zoo_get_children,
}
use distributed_task_dispath.Zookeeper.Laws.{Laws}
use distributed_task_dispath.Cluster.Paths.{
  g_path_elect, g_path_files, g_path_works, child, child_ne, files_ne_works, files_ne_elect,
  works_ne_elect,
}
use distributed_task_dispath.Cluster.Worker.Inbox.{take-pad}
use distributed_task_dispath.Cluster.Elect.Outcome.{c_str-zeros, length-pad}
use distributed_task_dispath.Cluster.Recover.{
  give_up_own, read_elect, clear_worker, clear_workers, recover, member,
}
use distributed_task_dispath.Cluster.Recover.Lost.{
  PlainName, AllCommanded, Keeps, Keeps-refl, Keeps-trans, clear_worker-Keeps, give_up_own-Keeps,
}
use distributed_task_dispath.Cluster.Recover.Own.{
  give_up_own-children, give_up_own-elsewhere, give_up_own-Leaf,
}
use distributed_task_dispath.Cluster.Recover.Survivors.{
  Leaf, clear_worker-other, clear_worker-Leaf, clear_worker_self,
}

-- The names of a list, put in front of others one by one.
abbrev gather : List Bytes → List Bytes → List Bytes
gather [] acc = acc
gather (o ∷ os) acc = gather os (o ∷ acc)

-- A name as `regist` stores it whole.
abbrev pub FitsElect : Bytes → Type 0
FitsElect o = (length o ≤ 24) × Lacks 0 o

module _ {zk : Zookeeper} (laws : Laws zk) where
  open laws use {node, get_lem, node-set, children-set}

  clear_workers-Keeps :
      (localhost f : Bytes) (dct wks : List Bytes) (n : ℕ) (w : World zk)
      → AllCommanded laws w.store
      → PlainName f
      → Keeps laws f w.store (clear_workers zk localhost dct wks n w).store
  unfolding clear_workers
  clear_workers-Keeps localhost f dct [] n w a h = Keeps-refl laws f w.store
  clear_workers-Keeps localhost f dct (wk ∷ wks) n w a h = elim (Bool-cases (member wk dct)) [
    | inl live ↦ rw (live, clear_workers) (clear_workers-Keeps localhost f dct wks n w a h)
    | inr dead ↦
        let (len, w') = clear_worker zk localhost wk n w in
        let one = clear_worker-Keeps laws localhost f wk n w a h in
        rw (dead, clear_workers)
          (Keeps-trans laws one (clear_workers-Keeps localhost f dct wks len w' (one.shape a) h))
  ]

  clear_workers-absent :
      (localhost k : Bytes) (dct wks : List Bytes) (n : ℕ) (w : World zk)
      → All (λ j. j ≢ k) wks
      → node (clear_workers zk localhost dct wks n w).store (child g_path_works k)
        ≡ node w.store (child g_path_works k)
  unfolding clear_workers
  clear_workers-absent localhost k dct [] n w h = refl
  clear_workers-absent localhost k dct (wk ∷ wks) n w h = elim (Bool-cases (member wk dct)) [
    | inl live ↦ rw (live, clear_workers) (clear_workers-absent localhost k dct wks n w h.1)
    | inr dead ↦
        let (len, w') = clear_worker zk localhost wk n w in
        rw (dead, clear_workers)
          (clear_workers-absent localhost k dct wks len w' h.1
            ∙ clear_worker-other laws localhost wk k n w h.0)
  ]

  leaves_after :
      (localhost wk : Bytes) (n : ℕ) (w : World zk) (wks : List Bytes)
      → All (λ j. wk ≢ j) wks
      → All (Leaf laws w.store) wks
      → All (Leaf laws (clear_worker zk localhost wk n w).1.store) wks
  leaves_after localhost wk n w [] d l = tt
  leaves_after localhost wk n w (j ∷ wks) d l =
      (clear_worker-Leaf laws localhost wk j n w d.0 l.0, leaves_after localhost wk n w wks d.1 l.1)

  -- A worker keeps its node exactly if its name is in the set.
  clear_workers-node :
      (localhost k : Bytes) (dct wks : List Bytes) (n : ℕ) (w : World zk)
      → Distinct wks
      → All (Leaf laws w.store) wks
      → In k wks
      → node (clear_workers zk localhost dct wks n w).store (child g_path_works k)
        ≡ (if member k dct then node w.store (child g_path_works k) else none)
  unfolding clear_workers
  clear_workers-node localhost k dct [] n w d l i = absurd i
  clear_workers-node localhost k dct (wk ∷ wks) n w d l (inl e) =
      let apart : All (λ j. j ≢ k) wks =
        subst (λ x. All (λ j. j ≢ x) wks) e (All-map _ _ wks (λ j g q. g (sym q)) d.0) in
      elim (Bool-cases (member wk dct)) [
        | inl live ↦
            rw (live, clear_workers)
              (clear_workers-absent localhost k dct wks n w apart
                ∙ rw (subst (λ x. member x dct ≡ true) e live))
        | inr dead ↦
            let (len, w') = clear_worker zk localhost wk n w in
            let gone =
              subst (λ x. node w'.store (child g_path_works x) ≡ none) e
                (clear_worker_self laws localhost wk n w l.0) in
            rw (dead, clear_workers)
              (clear_workers-absent localhost k dct wks len w' apart
                ∙ gone
                ∙ rw (subst (λ x. member x dct ≡ false) e dead))
      ]
  clear_workers-node localhost k dct (wk ∷ wks) n w d l (inr i) =
      let ne = All-In (λ j. wk ≢ j) wks i d.0 in
      elim (Bool-cases (member wk dct)) [
        | inl live ↦ rw (live, clear_workers) (clear_workers-node localhost k dct wks n w d.1 l.1 i)
        | inr dead ↦
            let (len, w') = clear_worker zk localhost wk n w in
            let leaves = leaves_after localhost wk n w wks d.0 l.1 in
            rw (dead, clear_workers)
              (clear_workers-node localhost k dct wks len w' d.1 leaves i
                ∙ ap (λ o. if member k dct then o else none)
                    (clear_worker-other laws localhost wk k n w ne))
      ]

  -- Each child of the election holds a name, as `regist` writes it.
  abbrev pub Registered : zk.Store → List Bytes → List Bytes → Type 0
  Registered s [] [] = Unit
  Registered s [] (o ∷ os) = ⊥
  Registered s (p ∷ ps) [] = ⊥
  Registered s (p ∷ ps) (o ∷ os) =
      (node s (child g_path_elect p) ≡ some (take 24 (pad 512 o)))
      × FitsElect o
      × Registered s ps os

  read_elect_lem :
      (localhost : Bytes) (ps os : List Bytes) (n : ℕ) (acc : List Bytes) (w : World zk)
      → 24 ≤ n
      → Registered w.store ps os
      → read_elect zk localhost ps n acc w ≡ (gather os acc, w)
  unfolding read_elect zoo_get
  read_elect_lem localhost [] [] n acc w h r = refl
  read_elect_lem localhost [] (o ∷ os) n acc w h r = absurd r
  read_elect_lem localhost (p ∷ ps) [] n acc w h r = absurd r
  read_elect_lem localhost (p ∷ ps) (o ∷ os) n acc w h (e, fits, r) =
      let size = length-pad 24 o fits.0 in
      let written = e ∙ ap some (take-pad 24 512 o fits.0 (omega arith)) in
      let read = get_lem w.store (child g_path_elect p) n ∙ ap (Option.map (take n)) written in
      rw
        (
          read,
          take_all n (pad 24 o) (omega (arith, size)),
          size,
          c_str-zeros _ o _ fits.1,
          take_all 24 o fits.0,
          read_elect,
        )
        (read_elect_lem localhost ps os 24 (o ∷ acc) w (omega arith) r)

member-gather :
    (k : Bytes) (os acc : List Bytes)
    → member k (gather os acc) ≡ (if member k os then true else member k acc)
member-gather k [] acc = refl
member-gather k (o ∷ os) acc = ground (arith, member-gather k os (o ∷ acc))

module _ {zk : Zookeeper} (laws : Laws zk) (localhost : Bytes) where
  open laws use {node}

  give_up_own-Registered :
      (w : World zk) (ps os : List Bytes)
      → Registered laws w.store ps os
      → Registered laws (give_up_own zk localhost w).store ps os
  give_up_own-Registered w [] [] r = r
  give_up_own-Registered w [] (o ∷ os) r = r
  give_up_own-Registered w (p ∷ ps) [] r = r
  give_up_own-Registered w (p ∷ ps) (o ∷ os) (e, fits, r) = (
    give_up_own-elsewhere laws localhost w (child g_path_elect p) (λ t. files_ne_elect t p)
          (works_ne_elect localhost p)
        ∙ e,
    fits,
    give_up_own-Registered w ps os r,
  )

  -- Let the children of the election hold the names `os`, and the workers' nodes be distinct,
  -- without children, and hold w_ wherever they begin with w. Then `recover` returns; a worker `k`
  -- other than the process itself keeps its node and data if its name is among `os`, and loses
  -- its node if not; and no file whose name is not empty and does not begin with an underscore
  -- changes its status: what a dead worker had in work is not put back in the queue.
  pub recover-loses_work :
      (w : World zk) (ps os ks : List Bytes) (k f : Bytes)
      → zk.get_children w.store g_path_elect ≡ some ps
      → zk.get_children w.store g_path_works ≡ some ks
      → Registered laws w.store ps os
      → Distinct ks
      → All (Leaf laws w.store) ks
      → AllCommanded laws w.store
      → In k ks
      → localhost ≢ k
      → PlainName f
      → (w' : World zk) × (recover zk localhost w ≡ some w')
        × (node w'.store (child g_path_works k)
            ≡ (if member k os then node w.store (child g_path_works k) else none))
        × (node w'.store (child g_path_files f) ≡ node w.store (child g_path_files f))
  unfolding recover zoo_get_children
  recover-loses_work w ps os ks k f ep ek r d l a i ne h =
      let w1 : World zk = give_up_own zk localhost w in
      let w2 : World zk = record w1 { watches = on_children g_path_elect ∷ w1.watches } in
      let w3 : World zk = record w2 { watches = on_children g_path_works ∷ w2.watches } in
      let dct : List Bytes = gather os [] in
      let kept = give_up_own-Keeps laws localhost f w a h in
      let rest = clear_workers-Keeps laws localhost f dct ks 64 w3 (kept.shape a) h in
      let own =
        give_up_own-elsewhere laws localhost w (child g_path_works k) (λ t. files_ne_works t k)
          (child_ne g_path_works localhost k ne) in
      (
        clear_workers zk localhost dct ks 64 w3,
        ground (
          arith,
          give_up_own-children laws localhost w g_path_elect ∙ ep,
          read_elect_lem laws localhost ps os 64 [] w2 (omega arith)
              (give_up_own-Registered w ps os r),
          give_up_own-children laws localhost w g_path_works ∙ ek,
        ),
        clear_workers-node laws localhost k dct ks 64 w3 d (give_up_own-Leaf laws localhost w ks l)
              i
            ∙ rw (own, member-gather k os []) (ground arith),
        rest.file ∙ kept.file,
      )
