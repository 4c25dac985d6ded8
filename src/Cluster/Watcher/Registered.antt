-- ===== src/Cluster/Watcher/Registered.antt =====
-- What `regist` leaves in the service: a node for the election that holds the process's name, and
-- an idle worker.
use distributed_task_dispath.Prelude.{
  some_ne_none, true, false, List, none, some, ◌≡◌, refl, sym, ◌∙◌, ap, arith, take,
}
use distributed_task_dispath.Bytes.{Bytes, bytes_eq, codes}
use distributed_task_dispath.Bytes.Equality.{bytes_eq_refl}
use distributed_task_dispath.Bytes.Search.{Lacks}
use distributed_task_dispath.Zookeeper.{
  Zookeeper, World, is_ok, persistent, ephemeral_sequence, pad, zoo_create,
}
use distributed_task_dispath.Zookeeper.Laws.{Laws}
use distributed_task_dispath.Zookeeper.Joining.{Joining, Listed}
use distributed_task_dispath.Cluster.Paths.{
  g_path_elect, g_path_works, child, child_ne, works_ne_elect,
}
use distributed_task_dispath.Cluster.Register.{regist}

pub elect_ne_elect : (a : Bytes) → bytes_eq (child g_path_elect a) g_path_elect ≡ false
unfolding child
elect_ne_elect a = refl

pub elect_ne_works : (a : Bytes) → bytes_eq (child g_path_elect a) g_path_works ≡ false
unfolding child
elect_ne_works a = refl

pub elect_ne_worker : (a b : Bytes) → bytes_eq (child g_path_elect a) (child g_path_works b) ≡ false
unfolding child
elect_ne_worker a b = refl

pub works_ne_works : (a : Bytes) → bytes_eq (child g_path_works a) g_path_works ≡ false
unfolding child
works_ne_works a = refl

pub works_ne_election : (a : Bytes) → bytes_eq (child g_path_works a) g_path_elect ≡ false
unfolding child
works_ne_election a = refl

module _ {zk : Zookeeper} {laws : Laws zk} (joining : Joining laws) where
  -- The name of the election's node that a process gets.
  abbrev pub next_name : zk.Store → Bytes
  next_name s = joining.next s g_path_elect (codes "proc-")

  -- Both roots are there, with some nodes below them, and none of them is the worker's.
  pub record Roots (s : zk.Store) (localhost : Bytes) (names wks : List Bytes) : Type 0 where
    pub elect : is_ok (laws.node s g_path_elect) ≡ true
    pub works : is_ok (laws.node s g_path_works) ≡ true
    pub below_elect : zk.get_children s g_path_elect ≡ some names
    pub below_works : zk.get_children s g_path_works ≡ some wks
    pub new : laws.node s (child g_path_works localhost) ≡ none

  -- Beside what was there in `s`, there is the process's node for the election, with its name, and
  -- an idle worker of its name.
  pub record Registered (s : zk.Store) (localhost : Bytes) (names wks : List Bytes) (s' : zk.Store)
      : Type 0 where
    pub elect : Listed (next_name s) names (zk.get_children s' g_path_elect)
    pub works : Listed localhost wks (zk.get_children s' g_path_works)
    pub name : laws.node s' (child g_path_elect (next_name s)) ≡ some (take 24 (pad 512 localhost))
    pub idle : laws.node s' (child g_path_works localhost) ≡ some (codes "s")
    pub kept :
        (m d : Bytes)
        → laws.node s (child g_path_elect m) ≡ some d
        → laws.node s' (child g_path_elect m) ≡ some d
    pub others :
        (q : Bytes)
        → bytes_eq (child g_path_elect (next_name s)) q ≡ false
        → bytes_eq (child g_path_works localhost) q ≡ false
        → laws.node s' q ≡ laws.node s q

  begin-Lacks : Lacks b'/' (codes "proc-")
  begin-Lacks = (omega arith, (omega arith, (omega arith, (omega arith, (omega arith, tt)))))

  -- A name that is there is not the new one.
  is_old :
      (s : zk.Store) (m d : Bytes)
      → laws.node s (child g_path_elect m) ≡ some d
      → bytes_eq (child g_path_elect (next_name s)) (child g_path_elect m) ≡ false
  is_old s m d h = child_ne g_path_elect (next_name s) m λ e. some_ne_none (
      sym h
      ∙ ap (λ a. laws.node s (child g_path_elect a)) (sym e)
      ∙ joining.next_new s g_path_elect (codes "proc-"))

  created :
      (s : zk.Store) (localhost : Bytes)
      → Lacks b'/' localhost
      → is_ok (laws.node s g_path_works) ≡ true
      → laws.node s (child g_path_works localhost) ≡ none
      → (zk.create s (child g_path_works localhost) (codes "s") persistent).1 ≡ true
  unfolding child
  created s localhost l root new = laws.create_child s g_path_works localhost (codes "s") l root new

  pub regist-Registered :
      (localhost : Bytes) (names wks : List Bytes) (w : World zk)
      → Lacks b'/' localhost
      → Roots w.store localhost names wks
      → Registered w.store localhost names wks (regist zk localhost w).store
        × ((regist zk localhost w).watches ≡ w.watches)
  unfolding regist zoo_create
  regist-Registered localhost names wks w l roots =
      let s : zk.Store = w.store in
      let name : Bytes = take 24 (pad 512 localhost) in
      let mine : Bytes = child g_path_works localhost in
      let s1 : zk.Store =
        (zk.create s (child g_path_elect (codes "proc-")) name ephemeral_sequence).0 in
      let n : Bytes = next_name s in
      let at1 =
        λ (q : Bytes). joining.node-next s g_path_elect (codes "proc-") name q roots.elect in
      let new1 : laws.node s1 mine ≡ none = at1 mine ∙ rw (elect_ne_worker n localhost) roots.new in
      let elect1 : is_ok (laws.node s1 g_path_elect) ≡ true =
        rw (at1 g_path_elect, elect_ne_elect n) roots.elect in
      let works1 : is_ok (laws.node s1 g_path_works) ≡ true =
        rw (at1 g_path_works, elect_ne_works n) roots.works in
      let ok = created s1 localhost l works1 new1 in
      let below1 =
        joining.children-next_other s g_path_elect (codes "proc-") name g_path_works roots.works
          begin-Lacks refl
        ∙ roots.below_works in
      let at2 = λ (q : Bytes). laws.node-create s1 mine (codes "s") q in
      (
        record {
          elect =
              rw
                (joining.children-create_other s1 g_path_works localhost (codes "s") g_path_elect
                  elect1 l refl)
                (joining.children-next s g_path_elect (codes "proc-") name names roots.elect
                  begin-Lacks roots.below_elect);
          works =
              joining.children-create s1 g_path_works localhost (codes "s") wks works1 new1 l
                below1;
          name =
              at2 (child g_path_elect n)
              ∙ rw (ok, works_ne_elect localhost n)
                  (at1 (child g_path_elect n) ∙ rw (bytes_eq_refl (child g_path_elect n)) refl);
          idle = at2 mine ∙ rw (ok, bytes_eq_refl mine) refl;
          kept = λ m d h.
              at2 (child g_path_elect m)
              ∙ rw (ok, works_ne_elect localhost m)
                  (at1 (child g_path_elect m) ∙ rw (is_old s m d h) h);
          others = λ q a b. at2 q ∙ rw (ok, b) (at1 q ∙ rw a refl);
        },
        refl,
      )
