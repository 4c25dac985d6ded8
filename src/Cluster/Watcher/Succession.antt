-- ===== src/Cluster/Watcher/Succession.antt =====
-- Processes that start one after the other.
use distributed_task_dispath.Prelude.{
  ℕ, true, false, List, [], ◌∷◌, Option, none, some, ◌≡◌, ◌≢◌, refl, sym, ◌∙◌, ap, inl, inr, In,
  All, All-In, All-intro, All-map, Distinct, map, take, ◌≤◌, length,
}
use distributed_task_dispath.Bytes.{Bytes, codes, strcmp_gt}
use distributed_task_dispath.Bytes.Search.{Lacks}
use distributed_task_dispath.Zookeeper.{
  Zookeeper, World, WorkMode, mode_monitor, mode_worker, is_ok, pad,
}
use distributed_task_dispath.Zookeeper.Laws.{Laws}
use distributed_task_dispath.Zookeeper.Joining.{Joining}
use distributed_task_dispath.Cluster.Paths.{g_path_elect, g_path_works, child, child_ne}
use distributed_task_dispath.Cluster.Elect.Least.{IsLeast, strcmp_refl}
use distributed_task_dispath.Cluster.Watcher.{prework}
use distributed_task_dispath.Cluster.Watcher.Registered.{
  next_name, Registered, elect_ne_elect, elect_ne_works, elect_ne_worker, works_ne_works,
  works_ne_election,
}
use distributed_task_dispath.Cluster.Watcher.Elected.{alone, behind}
use distributed_task_dispath.Cluster.Watcher.Joined.{prework-joins}

-- A name as `getlocalhost` gives it.
pub record IsName (name : Bytes) : Type 0 where
  pub short : length name ≤ 24
  pub text : Lacks 0 name
  pub plain : Lacks b'/' name

module _ (zk : Zookeeper) (fuel : ℕ) where
  -- The processes of these names start one after the other: the part of each, and the store.
  abbrev pub starts : List Bytes → zk.Store → Option (List WorkMode × zk.Store)
  starts [] s = some ([], s)
  starts (p ∷ ps) s =
      elim (prework zk p (λ x. x) fuel (record { store = s; watches = []; g_mode = mode_worker })) [
        | none ↦ none
        | some w ↦ elim (starts ps w.store) [ none ↦ none | some r ↦ some (w.g_mode ∷ r.0, r.1) ]
      ]

  starts_first :
      (p : Bytes) (ps : List Bytes) (s t : zk.Store) (w' : World zk) (mode : WorkMode)
      (modes : List WorkMode)
      → prework zk p (λ x. x) fuel (record { store = s; watches = []; g_mode = mode_worker })
        ≡ some w'
      → w'.g_mode ≡ mode
      → starts ps w'.store ≡ some (modes, t)
      → starts (p ∷ ps) s ≡ some (mode ∷ modes, t)
  unfolding prework
  starts_first p ps s t w' mode modes run m rest = rw (run, rest, m) refl

module _ {zk : Zookeeper} {laws : Laws zk} (joining : Joining laws) where
  absent_ok : {o : Option Bytes} {d : Bytes} → o ≡ some d → is_ok o ≡ true
  absent_ok e = rw e refl

  -- The election is led by the process `p`, which started on `s0`, and those that start next are new.
  record Led (s0 s : zk.Store) (p : Bytes) (qs : List Bytes) : Type 0 where
    names : List Bytes
    wks : List Bytes
    elect : is_ok (laws.node s g_path_elect) ≡ true
    works : is_ok (laws.node s g_path_works) ≡ true
    below_elect : zk.get_children s g_path_elect ≡ some names
    below_works : zk.get_children s g_path_works ≡ some wks
    listed : In (next_name joining s0) names
    least : IsLeast (next_name joining s0) names
    holds : laws.node s (child g_path_elect (next_name joining s0)) ≡ some (take 24 (pad 512 p))
    free : All (λ q. laws.node s (child g_path_works q) ≡ none) qs

  worker_kept :
      (s s' : zk.Store) (q x : Bytes) (names wks : List Bytes)
      → Registered joining s q names wks s'
      → q ≢ x
      → laws.node s' (child g_path_works x) ≡ laws.node s (child g_path_works x)
  worker_kept s s' q x names wks r h =
      r.others (child g_path_works x) (elect_ne_worker (next_name joining s) x)
        (child_ne g_path_works q x h)

  -- After one more start.
  next_Led :
      (s0 s s' : zk.Store) (p q : Bytes) (qs names wks : List Bytes)
      → Registered joining s q names wks s'
      → is_ok (laws.node s g_path_elect) ≡ true
      → is_ok (laws.node s g_path_works) ≡ true
      → In (next_name joining s0) (next_name joining s ∷ names)
      → IsLeast (next_name joining s0) (next_name joining s ∷ names)
      → laws.node s' (child g_path_elect (next_name joining s0)) ≡ some (take 24 (pad 512 p))
      → All (λ x. q ≢ x) qs
      → All (λ x. laws.node s (child g_path_works x) ≡ none) qs
      → Led s0 s' p qs
  next_Led s0 s s' p q qs names wks r elect works i l holds apart free =
      let (ms, em, into, from) = r.elect in
      let (ks, ek, _, _) = r.works in
      let n : Bytes = next_name joining s in
      record {
        names = ms;
        wks = ks;
        elect = ap is_ok (r.others g_path_elect (elect_ne_elect n) (works_ne_election q)) ∙ elect;
        works = ap is_ok (r.others g_path_works (elect_ne_works n) (works_ne_works q)) ∙ works;
        below_elect = em;
        below_works = ek;
        listed = All-In (λ x. In x ms) (n ∷ names) i into;
        least =
            All-map (λ x. In x (n ∷ names)) _ ms
              (λ x j. All-In (λ y. strcmp_gt (next_name joining s0) y ≡ false) (n ∷ names) j l)
              from;
        holds = holds;
        free = All-intro _ qs λ x j.
            worker_kept s s' q x names wks r (All-In (λ y. q ≢ y) qs j apart)
            ∙ All-In (λ y. laws.node s (child g_path_works y) ≡ none) qs j free;
      }

  -- Idle workers of these names.
  abbrev pub AllIdle : zk.Store → List Bytes → Type 0
  AllIdle t = All (λ q. laws.node t (child g_path_works q) ≡ some (codes "s"))

  followers :
      (fuel : ℕ) (s0 s : zk.Store) (p : Bytes) (qs : List Bytes)
      → Led s0 s p qs
      → IsName p
      → All IsName qs
      → Distinct qs
      → All (λ q. p ≢ q) qs
      → (t : zk.Store) × (starts zk fuel qs s ≡ some (map (λ _. mode_worker) qs, t))
        × AllIdle t qs
        × ((x : Bytes)
            → All (λ q. q ≢ x) qs
            → laws.node t (child g_path_works x) ≡ laws.node s (child g_path_works x))
  followers fuel s0 s p [] led name names d apart = (s, refl, tt, λ x h. refl)
  followers fuel s0 s p (q ∷ qs) led name (n, names) (here, d) (other, apart) =
      let w : World zk = record { store = s; watches = []; g_mode = mode_worker } in
      let m : Bytes = next_name joining s0 in
      let after = joining.next_after s0 s g_path_elect (codes "proc-") (absent_ok led.holds) in
      let (w', run, r, mode, _, _) =
        prework-joins joining q led.names led.wks mode_worker fuel w n.short n.text n.plain
          (record {
            elect = led.elect;
            works = led.works;
            below_elect = led.below_elect;
            below_works = led.below_works;
            new = led.free.0;
          })
          (behind m p led.listed (after, led.least) led.holds name.short name.text other) in
      let led' =
        next_Led s0 s w'.store p q qs led.names led.wks r led.elect led.works (inr led.listed)
          (after, led.least) (r.kept m _ led.holds) here led.free.1 in
      let (t, runs, idle, frame) = followers fuel s0 w'.store p qs led' name names d apart in
      (
        t,
        starts_first zk fuel q qs s t w' _ _ run mode runs,
        (frame q (All-map (λ x. q ≢ x) _ qs (λ x h e. h (sym e)) here) ∙ r.idle, idle),
        λ x h. frame x h.1 ∙ worker_kept s w'.store q x led.names led.wks r h.0,
      )

  -- Some processes with different names of at most 24 bytes, without zeros and slashes, start one
  -- after the other, with nobody else changing the store. Both roots are there, no process is in the
  -- election, and none of these has a node of a worker. Then `PREWORK` ends in each of them, the
  -- first is the monitor, the others are workers, and when the last one has started each has a node
  -- of an idle worker.
  pub starts-mode_monitor :
      (fuel : ℕ) (s : zk.Store) (p : Bytes) (qs wks : List Bytes)
      → is_ok (laws.node s g_path_elect) ≡ true
      → is_ok (laws.node s g_path_works) ≡ true
      → zk.get_children s g_path_elect ≡ some []
      → zk.get_children s g_path_works ≡ some wks
      → All (λ q. laws.node s (child g_path_works q) ≡ none) (p ∷ qs)
      → All IsName (p ∷ qs)
      → Distinct (p ∷ qs)
      → (t : zk.Store) × (starts zk fuel (p ∷ qs) s
          ≡ some (mode_monitor ∷ map (λ _. mode_worker) qs, t))
        × AllIdle t (p ∷ qs)
  starts-mode_monitor fuel s p qs wks elect works none_there ew (new, free) (n, names) (apart, d) =
      let w : World zk = record { store = s; watches = []; g_mode = mode_worker } in
      let m : Bytes = next_name joining s in
      let (w', run, r, mode, _, _) =
        prework-joins joining p [] wks mode_monitor fuel w n.short n.text n.plain
          (record {
            elect = elect;
            works = works;
            below_elect = none_there;
            below_works = ew;
            new = new;
          })
          (alone refl) in
      let led =
        next_Led s s w'.store p p qs [] wks r elect works (inl refl) (strcmp_refl m, tt) r.name
          apart free in
      let (t, runs, idle, frame) = followers fuel s w'.store p qs led n names d apart in
      (
        t,
        starts_first zk fuel p qs s t w' _ _ run mode runs,
        (frame p (All-map (λ x. p ≢ x) _ qs (λ x h e. h (sym e)) apart) ∙ r.idle, idle),
      )
