-- ===== src/Cluster/Files/Creation.antt =====
-- When the loops that create the three roots end.
use distributed_task_dispath.Prelude.{
  ℕ, zero, suc, true, false, ◌∷◌, none, some, ◌≡◌, refl, ap, ◌∙◌, inl, inr, Bool-cases,
  if◌then◌else◌,
}
use distributed_task_dispath.Bytes.{Bytes}
use distributed_task_dispath.Bytes.Equality.{bytes_eq_refl}
use distributed_task_dispath.Bytes.Search.{Lacks}
use distributed_task_dispath.Zookeeper.{Zookeeper, World, is_ok, persistent, zoo_exists, zoo_create}
use distributed_task_dispath.Zookeeper.Laws.{Laws}
use distributed_task_dispath.Cluster.Files.{create_until_ok, ensure}
use distributed_task_dispath.Cluster.Files.Status.{none_of}

module _ {zk : Zookeeper} (laws : Laws zk) where
  open laws use {node, has_node_lem, create_taken, node-create, create_root}

  create_until_ok-taken :
      (fuel : ℕ) (path value : Bytes) (w : World zk)
      → is_ok (node w.store path) ≡ true
      → create_until_ok zk fuel path value w ≡ none
  unfolding create_until_ok zoo_create
  create_until_ok-taken zero path value w h = refl
  create_until_ok-taken (suc fuel) path value w h =
      let refused = create_taken w.store path value h in
      let w' : World zk = record w { store = (zk.create w.store path value persistent).0 } in
      rw (ap (λ r. r.1) refused, create_until_ok)
        (create_until_ok-taken fuel path value w' (rw refused h))

  -- If the node is missing at the test, and another process makes it before this one's first
  -- `zoo_create`, and nobody changes the store after that, then the loop ends for no number of rounds.
  pub ensure_raced :
      (others : zk.Store → zk.Store) (fuel : ℕ) (path value : Bytes) (w : World zk)
      → is_ok (node w.store path) ≡ false
      → is_ok (node (others w.store) path) ≡ true
      → ensure zk others fuel path value w ≡ none
  unfolding ensure zoo_exists
  ensure_raced others fuel path value w absent raced =
      rw (has_node_lem w.store path, absent)
        (create_until_ok-taken fuel path value (record w { store = others w.store }) raced)

  -- If no other process makes the node in between, then one round is enough, and afterwards the
  -- node is there: a new one with the value, or the one that was there at the test with what the
  -- others left in it. The node stands at the root, and its name holds no slash.
  pub ensure_alone :
      (others : zk.Store → zk.Store) (fuel : ℕ) (name value : Bytes) (w : World zk)
      → Lacks b'/' name
      → is_ok (node (others w.store) (b'/' ∷ name)) ≡ is_ok (node w.store (b'/' ∷ name))
      → (w' : World zk) × (ensure zk others (suc fuel) (b'/' ∷ name) value w ≡ some w')
        × (node w'.store (b'/' ∷ name) ≡ (
            if is_ok (node w.store (b'/' ∷ name))
            then node (others w.store) (b'/' ∷ name)
            else some value))
  unfolding ensure create_until_ok zoo_exists zoo_create
  ensure_alone others fuel name value w h alone =
      let path : Bytes = b'/' ∷ name in
      elim (Bool-cases (is_ok (node w.store path))) [
        | inl there ↦
            (record w { store = others w.store }, rw (has_node_lem w.store path, there), rw there)
        | inr absent ↦
            let s : zk.Store = others w.store in
            let ok = create_root s name value h (none_of _ (alone ∙ absent)) in
            (
              record w { store = (zk.create s path value persistent).0 },
              rw (has_node_lem w.store path, absent, ok, create_until_ok),
              rw absent (rw (node-create s path value path, ok, bytes_eq_refl path)),
            )
      ]
