-- ===== src/Cluster/Files/Deleted.antt =====
-- What `dlt` does.
use distributed_task_dispath.Prelude.{
  List, [], ◌∷◌, Option, ◌⊎◌, inl, inr, ap, some_ne_none, none, some, ◌≡◌, ◌≢◌, refl, ◌∙◌,
}
use distributed_task_dispath.Bytes.{Bytes}
use distributed_task_dispath.Bytes.Equality.{bytes_eq_refl}
use distributed_task_dispath.Zookeeper.{Zookeeper, World, is_ok, zoo_delete}
use distributed_task_dispath.Zookeeper.Laws.{Laws}
use distributed_task_dispath.Cluster.Paths.{g_path_files, child, child_ne}
use distributed_task_dispath.Cluster.Files.{dlt}

module _ {zk : Zookeeper} (laws : Laws zk) where
  open laws use {node, node-delete, delete_leaf, delete_absent, delete_parent}

  -- The end of the process, or a store without the file and with the data of every other file's
  -- node.
  abbrev pub Deletes : Bytes → World zk → Option Bytes → List Bytes → Type 0
  Deletes f w none names = dlt zk f w ≡ none
  Deletes f w (some d) (name ∷ names) = dlt zk f w ≡ none
  Deletes f w (some d) [] =
      (w' : World zk) × (dlt zk f w ≡ some w')
      × (node w'.store (child g_path_files f) ≡ none)
      × ((g : Bytes)
          → f ≢ g
          → node w'.store (child g_path_files g) ≡ node w.store (child g_path_files g))

  -- `dlt` ends the process exactly if the file has no node or its node has nodes below it. If not, the
  -- file has no node afterwards, and every other file's node holds what it held.
  pub dlt_removes :
      (f : Bytes) (w : World zk) (found : Option Bytes) (below : List Bytes)
      → node w.store (child g_path_files f) ≡ found
      → (found ≡ none) ⊎ (zk.get_children w.store (child g_path_files f) ≡ some below)
      → Deletes f w found below
  unfolding dlt zoo_delete child
  dlt_removes f w none below absent children =
      rw (delete_absent w.store (child g_path_files f) absent, dlt) refl
  dlt_removes f w (some d) below there (inl e) = absurd (some_ne_none e)
  dlt_removes f w (some d) (name ∷ names) there (inr children) =
      rw (delete_parent w.store (child g_path_files f) name names children, dlt) refl
  dlt_removes f w (some d) [] there (inr leaf) =
      let path : Bytes = child g_path_files f in
      let ok = delete_leaf w.store path (ap is_ok there) leaf in
      (
        record w { store = (zk.delete w.store path).0 },
        rw (ok, dlt) refl,
        node-delete w.store path path ∙ rw (ok, bytes_eq_refl path) refl,
        λ g other.
            node-delete w.store path (child g_path_files g)
            ∙ rw (ok, child_ne g_path_files f g other) refl,
      )
