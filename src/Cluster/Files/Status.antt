-- ===== src/Cluster/Files/Status.antt =====
-- What is read of a file's status after it was written.
use mathlib.Core.Bool.{false≢true}
use mathlib.Core.Option
use distributed_task_dispath.Prelude.{
  ℕ, true, false, [], ◌∷◌, Option, none, some, ◌≡◌, ◌≢◌, refl, ◌∙◌, inl, inr, arith, take,
  if◌then◌else◌, Bool-cases,
}
use distributed_task_dispath.Bytes.{Bytes, codes, c_str}
use distributed_task_dispath.Bytes.Equality.{bytes_eq_refl}
use distributed_task_dispath.Bytes.Search.{Lacks}
use distributed_task_dispath.Zookeeper.{
  Zookeeper, World, fill, zeroed, is_ok, persistent, zoo_set, zoo_create,
}
use distributed_task_dispath.Zookeeper.Laws.{Laws}
use distributed_task_dispath.Cluster.Paths.{g_path_files, child}
use distributed_task_dispath.Cluster.Files.{gt, st, insr2clst}

-- What `gt` makes of a node.
pub shown : Option Bytes → Bytes
shown o =
    let value = fill (zeroed 64) (Option.map (take 64) o) in take value.len (c_str value.bytes)

pub shown-none : shown none ≡ []
unfolding shown c_str
shown-none = refl

pub one_byte : (c : ℕ) → c ≢ 0 → shown (some (c ∷ [])) ≡ c ∷ []
unfolding shown c_str
one_byte c h = ground arith

pub none_of : (o : Option Bytes) → is_ok o ≡ false → o ≡ none
none_of none h = refl
none_of (some d) h = cc

module _ {zk : Zookeeper} (laws : Laws zk) where
  open laws use {node}

  pub gt-shown :
      (f : Bytes) (w : World zk) → (gt zk f w).0 ≡ shown (node w.store (child g_path_files f))
  unfolding gt shown
  gt-shown f w = rw (laws.get_lem w.store (child g_path_files f) 64)

  -- The status of a file that has a node is read back as the first byte of what was set, and is
  -- not affected by what else the text holds; the byte is not zero.
  gt-st :
      (f : Bytes) (c : ℕ) (v : Bytes) (w : World zk)
      → c ≢ 0
      → is_ok (node w.store (child g_path_files f)) ≡ true
      → (gt zk f (st zk f (c ∷ v) w)).0 ≡ c ∷ []
  unfolding st zoo_set
  gt-st f c v w h there =
      gt-shown f (st zk f (c ∷ v) w)
      ∙ rw
          (
            laws.node-set w.store (child g_path_files f) (c ∷ []) (child g_path_files f),
            bytes_eq_refl (child g_path_files f),
          )
          (written (node w.store (child g_path_files f)) there)
    where
      written : (o : Option Bytes) → is_ok o ≡ true → shown (Option.map (λ _. c ∷ []) o) ≡ c ∷ []
      written none e = absurd (false≢true e)
      written (some d) e = one_byte c h

  pub made :
      (f : Bytes) (w : World zk)
      → Lacks b'/' f
      → is_ok (node w.store g_path_files) ≡ true
      → is_ok (node w.store (child g_path_files f)) ≡ false
      → (zk.create w.store (child g_path_files f) (codes "r") persistent).1 ≡ true
  unfolding child
  made f w h root fresh =
      laws.create_child w.store g_path_files f (codes "r") h root (none_of _ fresh)

  -- Inserting a file whose name holds no slash, below a node /files that is there: a new file
  -- waits, and a file that is there already keeps the status that it had.
  gt-insr2clst :
      (f : Bytes) (w : World zk)
      → Lacks b'/' f
      → is_ok (node w.store g_path_files) ≡ true
      → (gt zk f (insr2clst zk f w)).0
        ≡ (if is_ok (node w.store (child g_path_files f)) then (gt zk f w).0 else codes "r")
  unfolding insr2clst zoo_create
  gt-insr2clst f w h root = elim (Bool-cases (is_ok (node w.store (child g_path_files f)))) [
    | inl there ↦ rw (
      there,
      gt-shown f (insr2clst zk f w),
      gt-shown f w,
      laws.create_taken w.store (child g_path_files f) (codes "r") there,
    )
    | inr fresh ↦ rw fresh (
        gt-shown f (insr2clst zk f w)
        ∙ rw
            (
              laws.node-create w.store (child g_path_files f) (codes "r") (child g_path_files f),
              made f w h root fresh,
              bytes_eq_refl (child g_path_files f),
            )
            (one_byte b'r' (omega arith)))
  ]
