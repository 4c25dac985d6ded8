-- ===== src/Cluster/Elect/OneMonitor.antt =====
-- An election makes at most one process the monitor.
use distributed_task_dispath.Prelude.{
  some_inj, ◌≤◌, List, ◌∷◌, some, ◌≡◌, ap, sym, ◌∙◌, inl, inr, take, length, In, Bool-cases,
  if◌then◌else◌,
}
use distributed_task_dispath.Bytes.{Bytes, bytes_eq}
use distributed_task_dispath.Bytes.Equality.{bytes_eq→eq}
use distributed_task_dispath.Bytes.Search.{Lacks}
use distributed_task_dispath.Zookeeper.{Zookeeper, World, mode_monitor, mode_worker, pad}
use distributed_task_dispath.Zookeeper.Laws.{Laws}
use distributed_task_dispath.Cluster.Paths.{child}
use distributed_task_dispath.Cluster.Elect.{choose_mater}
use distributed_task_dispath.Cluster.Elect.Least.{IsLeast}
use distributed_task_dispath.Cluster.Elect.Outcome.{choose_mater-elects}

elected :
    (owner localhost : Bytes)
    → (if bytes_eq owner localhost then mode_monitor else mode_worker) ≡ mode_monitor
    → owner ≡ localhost
elected owner localhost h = elim (Bool-cases (bytes_eq owner localhost)) [
  | inl same ↦ bytes_eq→eq owner localhost same
  | inr other ↦ absurd (let worker = rw other at h in cc)
]

module _ {zk : Zookeeper} (laws : Laws zk) where
  -- Let two processes `a` and `b` hold the election on the same store, in which the least name `m`
  -- holds a name of at most 24 bytes. If both become the monitor, they have the same name.
  pub one_monitor :
      (a b path m owner p : Bytes) (ps : List Bytes) (wa wb wa' wb' : World zk)
      → wa.store ≡ wb.store
      → zk.get_children wa.store path ≡ some (p ∷ ps)
      → In m (p ∷ ps)
      → IsLeast m (p ∷ ps)
      → laws.node wa.store (child path m) ≡ some (take 24 (pad 512 owner))
      → length owner ≤ 24
      → Lacks 0 owner
      → choose_mater zk a path wa ≡ some wa'
      → choose_mater zk b path wb ≡ some wb'
      → wa'.g_mode ≡ mode_monitor
      → wb'.g_mode ≡ mode_monitor
      → a ≡ b
  one_monitor a b path m owner p ps wa wb wa' wb' same e i l n size lacks ra rb ma mb =
      let (xa, runs_a, store_a, mode_a) =
        choose_mater-elects laws a path m owner p ps wa e i l n size lacks in
      let (xb, runs_b, store_b, mode_b) =
        choose_mater-elects laws b path m owner p ps wb
          (ap (λ s. zk.get_children s path) (sym same) ∙ e) i l
          (ap (λ s. laws.node s (child path m)) (sym same) ∙ n) size lacks in
      let is_a =
        elected owner a (sym mode_a ∙ ap (λ w. w.g_mode) (some_inj (sym runs_a ∙ ra)) ∙ ma) in
      let is_b =
        elected owner b (sym mode_b ∙ ap (λ w. w.g_mode) (some_inj (sym runs_b ∙ rb)) ∙ mb) in
      sym is_a ∙ is_b
