-- ===== src/Zookeeper/Laws.antt =====
-- What the program relies on of the service: the documented behaviour of its calls, stated of the
-- data that each node holds and of the names below it.
use mathlib.Core.Option
use distributed_task_dispath.Prelude.{
  true, false, ◌&&◌, ◌++◌, ℕ, zero, suc, ◌≡◌, refl, List, [], ◌∷◌, Option, none, some, take, length,
  ◌<◌, arith, if◌then◌else◌,
}
use distributed_task_dispath.Bytes.{Bytes, bytes_eq}
use distributed_task_dispath.Bytes.Search.{Lacks}
use distributed_task_dispath.Zookeeper.{
  Zookeeper, Buffer, fill, first, is_ok, persistent, ephemeral_sequence,
}

pub record Laws (zk : Zookeeper) : Type 0 where
  -- The data that a node holds, and `none` where there is no node.
  pub node : zk.Store → Bytes → Option Bytes
  -- `zoo_get` copies as much of the data as the buffer has room for.
  pub get_lem : (s : zk.Store) (p : Bytes) (n : ℕ) → zk.get s p n ≡ Option.map (take n) (node s p)
  -- `zoo_set` writes a node that is there, whatever its version, and makes none.
  pub node-set :
      (s : zk.Store) (p d q : Bytes)
      → node (zk.set s p d).0 q
        ≡ (if bytes_eq p q then Option.map (λ _. d) (node s q) else node s q)
  pub children-set :
      (s : zk.Store) (p d q : Bytes) → zk.get_children (zk.set s p d).0 q ≡ zk.get_children s q
  -- `zoo_delete` takes one node away or changes no data, and a node with no child can go.
  pub node-delete :
      (s : zk.Store) (p q : Bytes)
      → node (zk.delete s p).0 q ≡ (if (zk.delete s p).1 && bytes_eq p q then none else node s q)
  pub delete_leaf :
      (s : zk.Store) (p : Bytes)
      → is_ok (node s p) ≡ true
      → zk.get_children s p ≡ some []
      → (zk.delete s p).1 ≡ true
  -- There is no node to delete: ZNONODE.
  pub delete_absent : (s : zk.Store) (p : Bytes) → node s p ≡ none → (zk.delete s p).1 ≡ false
  -- ZNOTEMPTY.
  pub delete_parent :
      (s : zk.Store) (p name : Bytes) (names : List Bytes)
      → zk.get_children s p ≡ some (name ∷ names)
      → (zk.delete s p).1 ≡ false
  pub children-delete :
      (s : zk.Store) (p q : Bytes)
      → bytes_eq p q ≡ false
      → zk.get_children s q ≡ some []
      → zk.get_children (zk.delete s p).0 q ≡ some []
  -- `zoo_exists`, and `zoo_create` with flags 0: it fails on a node that is there, and changes
  -- nothing when it fails.
  pub has_node_lem : (s : zk.Store) (p : Bytes) → zk.has_node s p ≡ is_ok (node s p)
  pub create_taken :
      (s : zk.Store) (p d : Bytes)
      → is_ok (node s p) ≡ true
      → zk.create s p d persistent ≡ (s, false)
  pub node-create :
      (s : zk.Store) (p d q : Bytes)
      → node (zk.create s p d persistent).0 q
        ≡ (if (zk.create s p d persistent).1 && bytes_eq p q then some d else node s q)
  -- `zoo_create` with ZOO_SEQUENCE makes a node whose path begins with the one that is given.
  pub node-create_sequence :
      (s : zk.Store) (p d q : Bytes)
      → bytes_eq (take (length p) q) p ≡ false
      → node (zk.create s p d ephemeral_sequence).0 q ≡ node s q
  -- A node can be made at the root, and below a node that is there.
  pub create_root :
      (s : zk.Store) (name d : Bytes)
      → Lacks b'/' name
      → node s (b'/' ∷ name) ≡ none
      → (zk.create s (b'/' ∷ name) d persistent).1 ≡ true
  pub create_child :
      (s : zk.Store) (parent name d : Bytes)
      → Lacks b'/' name
      → is_ok (node s parent) ≡ true
      → node s (parent ++ b'/' ∷ name) ≡ none
      → (zk.create s (parent ++ b'/' ∷ name) d persistent).1 ≡ true

abbrev pub first_of_node : Option Bytes → ℕ
first_of_node none = 0
first_of_node (some d) = first d

module _ {zk : Zookeeper} (laws : Laws zk) where
  open laws use {node, get_lem, node-set}

  -- The first byte of a node's data: 0 if there is no node or no data.
  abbrev pub status : zk.Store → Bytes → ℕ
  status s p = first_of_node (node s p)

  -- What a process reads in the first byte of its buffer, and the room that is left for the next
  -- read: both are right as long as no node is missing or empty.
  pub fill-first :
      (s : zk.Store) (p : Bytes) (b : Buffer)
      → 0 < b.len
      → 0 < status s p
      → (first (fill b (zk.get s p b.len)).bytes ≡ status s p)
        × (0 < (fill b (zk.get s p b.len)).len)
  fill-first s p b room there = rw get_lem (by_node (node s p) b.len room there)
    where
      by_node :
          (o : Option Bytes) (n : ℕ)
          → 0 < n
          → 0 < first_of_node o
          → (first (fill b (Option.map (take n) o)).bytes ≡ first_of_node o)
            × (0 < (fill b (Option.map (take n) o)).len)
      by_node none n room there = absurd (omega arith)
      by_node (some []) n room there = absurd (omega arith)
      by_node (some (c ∷ d)) zero room there = absurd (omega arith)
      by_node (some (c ∷ d)) (suc n) room there = (refl, omega arith)
