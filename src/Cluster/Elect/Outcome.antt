-- ===== src/Cluster/Elect/Outcome.antt =====
-- Who becomes the monitor.
use mathlib.Core.Option
use distributed_task_dispath.Prelude.{
  ℕ, zero, suc, ◌-◌, ◌≤◌, List, ◌∷◌, ◌++◌, some, ◌≡◌, refl, ap, arith, if◌then◌else◌, take, length,
  replicate, length-append, length-replicate, take_all, append_assoc, append-nil, In, ◌∙◌,
}
use distributed_task_dispath.Bytes.{Bytes, bytes_eq, c_str}
use distributed_task_dispath.Bytes.Search.{Lacks, c_str_padded}
use distributed_task_dispath.Zookeeper.{
  Zookeeper, World, mode_monitor, mode_worker, fill, zeroed, pad, on_children,
}
use distributed_task_dispath.Zookeeper.Laws.{Laws}
use distributed_task_dispath.Cluster.Paths.{child}
use distributed_task_dispath.Cluster.Worker.Inbox.{take-pad}
use distributed_task_dispath.Cluster.Elect.{choose_mater}
use distributed_task_dispath.Cluster.Elect.Least.{IsLeast, least_unique}

pub c_str-zeros : (k : ℕ) (s t : Bytes) → Lacks 0 s → c_str ((s ++ replicate k 0) ++ 0 ∷ t) ≡ s
c_str-zeros zero s t h = rw (append-nil s) (c_str_padded s t h)
c_str-zeros (suc k) s t h = rw (append_assoc s (0 ∷ replicate k 0) (0 ∷ t)) (c_str_padded s _ h)

pub length-pad : (n : ℕ) (s : Bytes) → length s ≤ n → length (pad n s) ≡ n
length-pad n s h = omega (
  arith,
  length-append {0} s (replicate (n - length s) 0),
  length-replicate {A = ℕ} (n - length s) 0,
)

-- A name of at most 24 bytes that `regist` has written is read back from the array.
pub read_name :
    (s : Bytes)
    → length s ≤ 24
    → Lacks 0 s
    → c_str (fill (zeroed 64) (some (take 64 (pad 24 s)))).bytes ≡ s
read_name s h l =
    let size = length-pad 24 s h in
    rw (take_all 64 (pad 24 s) (omega (arith, size)), size) (c_str-zeros (24 - length s) s _ l)

module _ {zk : Zookeeper} (laws : Laws zk) where
  -- If the least name `m` among the children of the election holds the name `owner` as `regist`
  -- writes it, of at most 24 bytes, then `choose_mater` returns, leaves the store as it was, and
  -- makes the process the monitor exactly if it is called `owner`, and a worker otherwise.
  pub choose_mater-elects :
      (localhost path m owner : Bytes) (p : Bytes) (ps : List Bytes) (w : World zk)
      → zk.get_children w.store path ≡ some (p ∷ ps)
      → In m (p ∷ ps)
      → IsLeast m (p ∷ ps)
      → laws.node w.store (child path m) ≡ some (take 24 (pad 512 owner))
      → length owner ≤ 24
      → Lacks 0 owner
      → (w' : World zk) × (choose_mater zk localhost path w ≡ some w')
        × (w'.store ≡ w.store)
        × (w'.g_mode ≡ (if bytes_eq owner localhost then mode_monitor else mode_worker))
  unfolding choose_mater
  choose_mater-elects localhost path m owner p ps w e i l n h lacks =
      let found = least_unique m p ps i l in
      let written = n ∙ ap some (take-pad 24 512 owner h (omega arith)) in
      let read = laws.get_lem w.store (child path m) 64 ∙ ap (Option.map (take 64)) written in
      (
        record w {
          watches = on_children path ∷ w.watches;
          g_mode = if bytes_eq owner localhost then mode_monitor else mode_worker;
        },
        rw (e, found, read, read_name owner h lacks),
        refl,
        refl,
      )
