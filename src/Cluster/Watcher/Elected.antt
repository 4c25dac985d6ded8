-- ===== src/Cluster/Watcher/Elected.antt =====
-- The part that a process gets in the election in which it joins.
use distributed_task_dispath.Prelude.{
  some_inj, some_ne_none, true, false, List, [], ◌∷◌, Option, some, ◌≡◌, ◌≢◌, refl, sym, ◌∙◌, ap,
  subst, inl, inr, In, All-In, All-intro, take, ◌≤◌, length, if◌then◌else◌,
}
use distributed_task_dispath.Bytes.{Bytes, bytes_eq, strcmp_gt}
use distributed_task_dispath.Bytes.Equality.{bytes_eq_refl, bytes_eq_ne}
use distributed_task_dispath.Bytes.Search.{Lacks}
use distributed_task_dispath.Zookeeper.{
  Zookeeper, World, WorkMode, mode_monitor, mode_worker, on_children, pad, zoo_get_children,
}
use distributed_task_dispath.Zookeeper.Laws.{Laws}
use distributed_task_dispath.Zookeeper.Joining.{Joining}
use distributed_task_dispath.Cluster.Paths.{g_path_elect, child}
use distributed_task_dispath.Cluster.Elect.{choose_mater, identify}
use distributed_task_dispath.Cluster.Elect.Least.{IsLeast, strcmp_refl}
use distributed_task_dispath.Cluster.Elect.Outcome.{choose_mater-elects}
use distributed_task_dispath.Cluster.Watcher.Registered.{next_name, Registered}
use distributed_task_dispath.Cluster.Watcher.Returns.{choose_mater-Returns}

module _ {zk : Zookeeper} {laws : Laws zk} (joining : Joining laws) (localhost : Bytes) where
  -- The part that a process gets which is the first in the election, or which comes behind the
  -- least node of another process.
  pub data Role (s : zk.Store) (names : List Bytes) : WorkMode → Type 0 where
    alone : names ≡ [] → Role s names mode_monitor
    behind :
        (m owner : Bytes)
        → In m names
        → IsLeast m (next_name joining s ∷ names)
        → laws.node s (child g_path_elect m) ≡ some (take 24 (pad 512 owner))
        → length owner ≤ 24
        → Lacks 0 owner
        → owner ≢ localhost
        → Role s names mode_worker

  -- A winner: the least node, and the name that it holds.
  record Winner (s s' : zk.Store) (names : List Bytes) (mode : WorkMode) : Type 0 where
    m : Bytes
    owner : Bytes
    listed : In m (next_name joining s ∷ names)
    first : IsLeast m (next_name joining s ∷ names)
    holds : laws.node s' (child g_path_elect m) ≡ some (take 24 (pad 512 owner))
    short : length owner ≤ 24
    text : Lacks 0 owner
    decides : (if bytes_eq owner localhost then mode_monitor else mode_worker) ≡ mode

  Role-Winner :
      (s s' : zk.Store) (names wks : List Bytes) (mode : WorkMode)
      → length localhost ≤ 24
      → Lacks 0 localhost
      → Registered joining s localhost names wks s'
      → Role s names mode
      → Winner s s' names mode
  Role-Winner s s' names wks _ short text r (alone e) = record {
    m = next_name joining s;
    owner = localhost;
    listed = inl refl;
    first = (
      strcmp_refl (next_name joining s),
      subst (λ ns. IsLeast (next_name joining s) ns) (sym e) tt,
    );
    holds = r.name;
    short = short;
    text = text;
    decides = rw (bytes_eq_refl localhost) refl;
  }
  Role-Winner s s' names wks _ short text r (behind m owner i l h size lacks other) = record {
    m = m;
    owner = owner;
    listed = inr i;
    first = l;
    holds = r.kept m _ h;
    short = size;
    text = lacks;
    decides = rw (bytes_eq_ne owner localhost other) refl;
  }

  -- With one node in the election there is only the process's own.
  one_node :
      (s : zk.Store) (names : List Bytes) (p : Bytes) (mode : WorkMode)
      → ((m : Bytes) → In m (next_name joining s ∷ names) → In m (p ∷ []))
      → Role s names mode
      → mode_monitor ≡ mode
  one_node s names p _ into (alone e) = refl
  one_node s names p _ into (behind m owner i l h size lacks other) =
      absurd (both (into m (inr i)) (into (next_name joining s) (inl refl)))
    where
      both : In m (p ∷ []) → In (next_name joining s) (p ∷ []) → ⊥
      both (inl a) (inl b) = some_ne_none (
          sym h
          ∙ ap (λ x. laws.node s (child g_path_elect x)) (sym a ∙ b)
          ∙ joining.next_new s g_path_elect _)
      both (inl a) (inr i) = absurd i
      both (inr i) j = absurd i

  abbrev pub Elected : zk.Store → List Bytes → WorkMode → World zk → Option (World zk) → Type 0
  Elected s names mode w o =
      (w' : World zk) × (o ≡ some w')
      × (w'.store ≡ w.store)
      × (w'.g_mode ≡ mode)
      × In (on_children g_path_elect) w'.watches

  choose_mater-Elected :
      (s : zk.Store) (names : List Bytes) (p : Bytes) (ps : List Bytes) (mode : WorkMode)
      (w : World zk)
      → Winner s w.store names mode
      → zk.get_children w.store g_path_elect ≡ some (p ∷ ps)
      → ((m : Bytes) → In m (next_name joining s ∷ names) → In m (p ∷ ps))
      → ((m : Bytes) → In m (p ∷ ps) → In m (next_name joining s ∷ names))
      → In (on_children g_path_elect) w.watches
      → Elected s names mode w (choose_mater zk localhost g_path_elect w)
  choose_mater-Elected s names p ps mode w win e into from asked =
      let (w', run, same, elected) =
        choose_mater-elects laws localhost g_path_elect win.m win.owner p ps w e
          (into win.m win.listed)
          (All-intro (λ q. strcmp_gt win.m q ≡ false) (p ∷ ps)
            λ q i.
              All-In (λ q. strcmp_gt win.m q ≡ false) (next_name joining s ∷ names) (from q i)
                win.first)
          win.holds win.short win.text in
      let (w'', run', grows, same') = choose_mater-Returns localhost g_path_elect (p ∷ ps) w e in
      (
        w',
        run,
        same,
        elected ∙ win.decides,
        subst (λ x. In (on_children g_path_elect) x.watches) (some_inj (sym run' ∙ run))
            (grows _ asked),
      )

  pub identify-Elected :
      (s : zk.Store) (names wks : List Bytes) (mode : WorkMode) (w : World zk)
      → length localhost ≤ 24
      → Lacks 0 localhost
      → Registered joining s localhost names wks w.store
      → Role s names mode
      → Elected s names mode w (identify zk localhost g_path_elect w)
  unfolding identify zoo_get_children
  identify-Elected s names wks mode w short text r role =
      let (ms, e, into, from) = r.elect in
      by_list ms e (λ m i. All-In (λ x. In x ms) (next_name joining s ∷ names) i into)
        (λ m i. All-In (λ x. In x (next_name joining s ∷ names)) ms i from)
    where
      by_list :
          (ms : List Bytes)
          → zk.get_children w.store g_path_elect ≡ some ms
          → ((m : Bytes) → In m (next_name joining s ∷ names) → In m ms)
          → ((m : Bytes) → In m ms → In m (next_name joining s ∷ names))
          → Elected s names mode w (identify zk localhost g_path_elect w)
      by_list [] e into from = absurd (into (next_name joining s) (inl refl))
      by_list (p ∷ []) e into from =
          let w1 : World zk = (zoo_get_children zk true g_path_elect w).1 in
          (
            record w1 { g_mode = mode_monitor },
            rw e refl,
            refl,
            one_node s names p mode into role,
            inl refl,
          )
      by_list (p ∷ q ∷ more) e into from =
          let w1 : World zk = (zoo_get_children zk true g_path_elect w).1 in
          let (w', run, same, elected, asked) =
            choose_mater-Elected s names p (q ∷ more) mode w1
              (Role-Winner s w.store names wks mode short text r role) e into from (inl refl) in
          (w', rw e run, same, elected, asked)
