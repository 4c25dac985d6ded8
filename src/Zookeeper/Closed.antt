-- ===== src/Zookeeper/Closed.antt =====
-- Properties of the store that `zoo_set` keeps, where it writes a text that is not empty, and that a
-- wait keeps. The functions of Cluster and Work that only read and set keep them too.
use mathlib.Core.Option
use distributed_task_dispath.Prelude.{
  ℕ, ◌<◌, Bool, true, false, List, Option, none, some, ◌≡◌, ◌∙◌, refl, if◌then◌else◌,
}
use distributed_task_dispath.Bytes.{Bytes, bytes_eq}
use distributed_task_dispath.Zookeeper.{Zookeeper, first, is_ok}
use distributed_task_dispath.Zookeeper.Laws.{Laws, status, first_of_node}

-- A property that stays when the node at a path is set.
abbrev pub SetClosed : (zk : Zookeeper) → (zk.Store → Type 0) → Bytes → Type 0
SetClosed zk J p = (s : zk.Store) (d : Bytes) → 0 < first d → J s → J (zk.set s p d).0

abbrev pub WaitClosed : (zk : Zookeeper) → (zk.Store → Type 0) → Type 0
WaitClosed zk J = (n : ℕ) (s : zk.Store) → J s → J (zk.meanwhile n s)

module _ {zk : Zookeeper} (laws : Laws zk) where
  open laws use {node, node-set, children-set}

  pub node-SetClosed :
      (p q : Bytes) (x : Option Bytes) → bytes_eq q p ≡ false → SetClosed zk (λ s. node s p ≡ x) q
  node-SetClosed p q x apart s d some_byte h = node-set s q d p ∙ rw apart h

  pub there-SetClosed : (p q : Bytes) → SetClosed zk (λ s. is_ok (node s p) ≡ true) q
  there-SetClosed p q s d some_byte h = rw (node-set s q d p) (by_test (bytes_eq q p) (node s p) h)
    where
      by_test :
          (b : Bool) (o : Option Bytes)
          → is_ok o ≡ true
          → is_ok (if b then Option.map (λ _. d) o else o) ≡ true
      by_test true none e = e
      by_test true (some c) e = refl
      by_test false o e = e

  -- A node that holds data goes on to do so.
  pub status-SetClosed : (p q : Bytes) → SetClosed zk (λ s. 0 < status laws s p) q
  status-SetClosed p q s d some_byte h = rw (node-set s q d p) (by_test (bytes_eq q p) (node s p) h)
    where
      by_test :
          (b : Bool) (o : Option Bytes)
          → 0 < first_of_node o
          → 0 < first_of_node (if b then Option.map (λ _. d) o else o)
      by_test true none e = e
      by_test true (some c) e = some_byte
      by_test false o e = e

  pub children-SetClosed :
      (p q : Bytes) (o : Option (List Bytes)) → SetClosed zk (λ s. zk.get_children s p ≡ o) q
  children-SetClosed p q o s d some_byte h = children-set s q d p ∙ h
