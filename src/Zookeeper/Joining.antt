-- ===== src/Zookeeper/Joining.antt =====
-- What the program relies on of the service when a process joins: the documented behaviour of
-- `zoo_create` as to the names below a node, and the name that ZOO_SEQUENCE gives.
use distributed_task_dispath.Prelude.{
  true, false, List, ◌∷◌, Option, none, some, ◌≡◌, In, All, if◌then◌else◌,
}
use distributed_task_dispath.Bytes.{Bytes, bytes_eq, strcmp_gt}
use distributed_task_dispath.Bytes.Search.{Lacks}
use distributed_task_dispath.Zookeeper.{Zookeeper, is_ok, persistent, ephemeral_sequence}
use distributed_task_dispath.Zookeeper.Laws.{Laws}
use distributed_task_dispath.Cluster.Paths.{child}

-- The list has the names `ns` and the name `n`, in any order.
abbrev pub Listed : Bytes → List Bytes → Option (List Bytes) → Type 0
Listed n ns o =
    (ms : List Bytes) × (o ≡ some ms) × All (λ m. In m ms) (n ∷ ns) × All (λ m. In m (n ∷ ns)) ms

pub record Joining {zk : Zookeeper} (laws : Laws zk) : Type 0 where
  -- The name of the node that ZOO_SEQUENCE makes below a node, for the beginning of a name: a new one.
  pub next : zk.Store → Bytes → Bytes → Bytes
  pub next_new :
      (s : zk.Store) (parent begin : Bytes)
      → laws.node s (child parent (next s parent begin)) ≡ none
  -- As long as the node is there, the names that it gives come after that node's.
  pub next_after :
      (s t : zk.Store) (parent begin : Bytes)
      → is_ok (laws.node t (child parent (next s parent begin))) ≡ true
      → strcmp_gt (next s parent begin) (next t parent begin) ≡ false
  pub node-next :
      (s : zk.Store) (parent begin d q : Bytes)
      → is_ok (laws.node s parent) ≡ true
      → laws.node (zk.create s (child parent begin) d ephemeral_sequence).0 q
        ≡ (if bytes_eq (child parent (next s parent begin)) q then some d else laws.node s q)
  pub children-next :
      (s : zk.Store) (parent begin d : Bytes) (names : List Bytes)
      → is_ok (laws.node s parent) ≡ true
      → Lacks b'/' begin
      → zk.get_children s parent ≡ some names
      → Listed
          (next s parent begin)
          names
          (zk.get_children (zk.create s (child parent begin) d ephemeral_sequence).0 parent)
  pub children-next_other :
      (s : zk.Store) (parent begin d q : Bytes)
      → is_ok (laws.node s q) ≡ true
      → Lacks b'/' begin
      → bytes_eq parent q ≡ false
      → zk.get_children (zk.create s (child parent begin) d ephemeral_sequence).0 q
        ≡ zk.get_children s q
  -- The same of a node that is made with flags 0.
  pub children-create :
      (s : zk.Store) (parent name d : Bytes) (names : List Bytes)
      → is_ok (laws.node s parent) ≡ true
      → laws.node s (child parent name) ≡ none
      → Lacks b'/' name
      → zk.get_children s parent ≡ some names
      → Listed name names (zk.get_children (zk.create s (child parent name) d persistent).0 parent)
  pub children-create_other :
      (s : zk.Store) (parent name d q : Bytes)
      → is_ok (laws.node s q) ≡ true
      → Lacks b'/' name
      → bytes_eq parent q ≡ false
      → zk.get_children (zk.create s (child parent name) d persistent).0 q ≡ zk.get_children s q
