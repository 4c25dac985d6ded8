-- ===== src/Cluster/Recover/Survivors.antt =====
-- Which workers are left after `recover`, and what of their work.
use distributed_task_dispath.Prelude.{
  ℕ, ◌-◌, Bool, true, false, [], Option, none, some, ◌≡◌, ◌≢◌, refl, ap, ◌∙◌, inl, inr, take, drop,
  replicate, Bool-cases, ◌==◌, if◌then◌else◌, ◌&&◌,
}
use distributed_task_dispath.Bytes.{Bytes, codes, c_str}
use distributed_task_dispath.Bytes.Equality.{bytes_eq_refl}
use distributed_task_dispath.Zookeeper.{
  Zookeeper, World, Buffer, fill, first, is_ok, zoo_get, zoo_set, zoo_delete,
}
use distributed_task_dispath.Zookeeper.Laws.{Laws}
use distributed_task_dispath.Cluster.Paths.{
  g_path_files, g_path_works, child, child_ne, files_ne_works,
}
use distributed_task_dispath.Cluster.Recover.{clear_worker}

module _ {zk : Zookeeper} (laws : Laws zk) where
  open laws use {node, node-set, node-delete, children-set, children-delete, delete_leaf}

  -- A worker's node is there, with no node below it.
  abbrev pub Leaf : zk.Store → Bytes → Type 0
  Leaf s j =
      (is_ok (node s (child g_path_works j)) ≡ true)
      × (zk.get_children s (child g_path_works j) ≡ some [])

  pub node-set_file :
      (s : zk.Store) (t d k : Bytes)
      → node (zk.set s (child g_path_files t) d).0 (child g_path_works k)
        ≡ node s (child g_path_works k)
  node-set_file s t d k =
      rw (node-set s (child g_path_files t) d (child g_path_works k), files_ne_works t k)

  node-delete_other :
      (s : zk.Store) (j k : Bytes)
      → j ≢ k
      → node (zk.delete s (child g_path_works j)).0 (child g_path_works k)
        ≡ node s (child g_path_works k)
  node-delete_other s j k h =
      rw (node-delete s (child g_path_works j) (child g_path_works k), child_ne g_path_works j k h)
        (either (zk.delete s (child g_path_works j)).1)
    where
      either : (b : Bool) {o : Option Bytes} → (if b && false then none else o) ≡ o
      either true = refl
      either false = refl

  node-delete_self :
      (s : zk.Store) (k : Bytes)
      → Leaf s k
      → node (zk.delete s (child g_path_works k)).0 (child g_path_works k) ≡ none
  node-delete_self s k h = rw (
    node-delete s (child g_path_works k) (child g_path_works k),
    delete_leaf s (child g_path_works k) h.0 h.1,
    bytes_eq_refl (child g_path_works k),
  )

  -- The store before the deletion: the one that was read, or with one file's node written.
  data Marked (s s' : zk.Store) : Type 0 where
    same : s' ≡ s → Marked s s'
    wrote : (t : Bytes) → s' ≡ (zk.set s (child g_path_files t) (codes "r")).0 → Marked s s'

  Marked-node :
      {s s' : zk.Store} (k : Bytes)
      → Marked s s'
      → node s' (child g_path_works k) ≡ node s (child g_path_works k)
  Marked-node k (same e) = rw e
  Marked-node {s} k (wrote t e) = rw e (node-set_file s t (codes "r") k)

  Marked-children :
      {s s' : zk.Store} (p : Bytes) → Marked s s' → zk.get_children s' p ≡ zk.get_children s p
  Marked-children p (same e) = rw e
  Marked-children {s} p (wrote t e) = rw e (children-set s (child g_path_files t) (codes "r") p)

  clear_worker-Marked :
      (localhost j : Bytes) (n : ℕ) (w : World zk)
      → (s' : zk.Store) × Marked w.store s'
        × ((clear_worker zk localhost j n w).1.store ≡ (zk.delete s' (child g_path_works j)).0)
  unfolding clear_worker zoo_get zoo_set zoo_delete
  clear_worker-Marked localhost j n w =
      let b : Buffer =
        fill (record { bytes = replicate 64 b'0'; len = n })
          (zk.get w.store (child g_path_works j) n) in
      elim (Bool-cases (first b.bytes == b'w')) [
        | inr no_task ↦ (w.store, same refl, rw no_task)
        | inl task ↦
            let stem = c_str (take (b.len - 1) (drop 1 b.bytes)) in
            ((zk.set w.store (child g_path_files stem) (codes "r")).0, wrote stem refl, rw task)
      ]

  pub clear_worker-other :
      (localhost j k : Bytes) (n : ℕ) (w : World zk)
      → j ≢ k
      → node (clear_worker zk localhost j n w).1.store (child g_path_works k)
        ≡ node w.store (child g_path_works k)
  clear_worker-other localhost j k n w h =
      let (s', m, e) = clear_worker-Marked localhost j n w in
      rw e (node-delete_other s' j k h ∙ Marked-node k m)

  pub clear_worker-Leaf :
      (localhost j k : Bytes) (n : ℕ) (w : World zk)
      → j ≢ k
      → Leaf w.store k
      → Leaf (clear_worker zk localhost j n w).1.store k
  clear_worker-Leaf localhost j k n w h leaf =
      let (s', m, e) = clear_worker-Marked localhost j n w in
      (
        ap is_ok (clear_worker-other localhost j k n w h) ∙ leaf.0,
        rw e (children-delete s' _ _ (child_ne g_path_works j k h) (Marked-children _ m ∙ leaf.1)),
      )

  pub clear_worker_self :
      (localhost k : Bytes) (n : ℕ) (w : World zk)
      → Leaf w.store k
      → node (clear_worker zk localhost k n w).1.store (child g_path_works k) ≡ none
  clear_worker_self localhost k n w leaf =
      let (s', m, e) = clear_worker-Marked localhost k n w in
      rw e
        (node-delete_self s' k (ap is_ok (Marked-node k m) ∙ leaf.0, Marked-children _ m ∙ leaf.1))
