-- ===== src/Cluster/Recover/Own.antt =====
-- The first half of `recover`: the new monitor gives up its own work, and changes nothing else.
use mathlib.Core.Option
use distributed_task_dispath.Prelude.{
  Bool, true, false, List, [], ◌∷◌, Option, none, some, ◌≡◌, refl, ◌∙◌, inl, inr, Bool-cases, drop,
  if◌then◌else◌, ◌==◌, All,
}
use distributed_task_dispath.Bytes.{Bytes, codes, bytes_eq, c_str}
use distributed_task_dispath.Zookeeper.{
  Zookeeper, World, Buffer, fill, zeroed, first, is_ok, zoo_get, zoo_set,
}
use distributed_task_dispath.Zookeeper.Laws.{Laws}
use distributed_task_dispath.Cluster.Paths.{g_path_files, g_path_works, child, files_ne_works}
use distributed_task_dispath.Cluster.Recover.{give_up_own}
use distributed_task_dispath.Cluster.Recover.Survivors.{Leaf}

module _ {zk : Zookeeper} (laws : Laws zk) (localhost : Bytes) where
  open laws use {node, node-set, children-set}

  -- The store after `give_up_own`: as it was, or with two nodes written.
  data GaveUp (s s' : zk.Store) : Type 0 where
    idle_before : s' ≡ s → GaveUp s s'
    handed_back :
        (t : Bytes)
        → s'
          ≡ (zk.set
              (zk.set s (child g_path_files t) (codes "r")).0
              (child g_path_works localhost)
              (codes "s")).0
        → GaveUp s s'

  give_up_own-GaveUp : (w : World zk) → GaveUp w.store (give_up_own zk localhost w).store
  unfolding give_up_own zoo_get zoo_set
  give_up_own-GaveUp w =
      let b : Buffer = fill (zeroed 64) (zk.get w.store (child g_path_works localhost) 64) in
      elim (Bool-cases (first b.bytes == b'w')) [
        | inr no_task ↦ idle_before (rw no_task)
        | inl task ↦ handed_back (c_str (drop 1 b.bytes)) (rw task)
      ]

  pub give_up_own-children :
      (w : World zk) (q : Bytes)
      → zk.get_children (give_up_own zk localhost w).store q ≡ zk.get_children w.store q
  give_up_own-children w q = elim (give_up_own-GaveUp w) [
    | idle_before e ↦ rw e
    | handed_back t e ↦ rw e (children-set _ _ (codes "s") q ∙ children-set _ _ (codes "r") q)
  ]

  pub give_up_own-elsewhere :
      (w : World zk) (q : Bytes)
      → ((t : Bytes) → bytes_eq (child g_path_files t) q ≡ false)
      → bytes_eq (child g_path_works localhost) q ≡ false
      → node (give_up_own zk localhost w).store q ≡ node w.store q
  give_up_own-elsewhere w q h k = elim (give_up_own-GaveUp w) [
    | idle_before e ↦ rw e
    | handed_back t e ↦ rw (
      e,
      node-set _ (child g_path_works localhost) (codes "s") q,
      k,
      node-set _ (child g_path_files t) (codes "r") q,
      h t,
    )
  ]

  is_ok-written :
      (b : Bool) (d : Bytes) (o : Option Bytes)
      → is_ok (if b then Option.map (λ _. d) o else o) ≡ is_ok o
  is_ok-written true d none = refl
  is_ok-written true d (some e) = refl
  is_ok-written false d o = refl

  pub give_up_own-Leaf :
      (w : World zk) (ks : List Bytes)
      → All (Leaf laws w.store) ks
      → All (Leaf laws (give_up_own zk localhost w).store) ks
  give_up_own-Leaf w [] l = tt
  give_up_own-Leaf w (k ∷ ks) l = (
    (there ∙ l.0.0, give_up_own-children w (child g_path_works k) ∙ l.0.1),
    give_up_own-Leaf w ks l.1,
  )
    where
      there :
          is_ok (node (give_up_own zk localhost w).store (child g_path_works k))
          ≡ is_ok (node w.store (child g_path_works k))
      there = elim (give_up_own-GaveUp w) [
        | idle_before e ↦ rw e
        | handed_back t e ↦
            rw (e, node-set _ (child g_path_works localhost) (codes "s") (child g_path_works k))
              (is_ok-written (bytes_eq (child g_path_works localhost) (child g_path_works k))
                  (codes "s")
                  (node (zk.set w.store (child g_path_files t) (codes "r")).0
                    (child g_path_works k))
                ∙ rw (
                  node-set w.store (child g_path_files t) (codes "r") (child g_path_works k),
                  files_ne_works t k,
                ))
      ]
