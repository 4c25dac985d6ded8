-- ===== src/Cluster/Files.antt =====
-- The file operations of _zk_server/clust_comm.cpp: each task's file has a node under /files that
-- holds r (waits), y (in work) or g (done).
pub mod Status
pub mod Creation
pub mod Listing
pub mod Refines
pub mod Deleted
use distributed_task_dispath.Prelude.{
  ℕ, zero, suc, Bool, true, false, [], ◌∷◌, ◌++◌, Option, none, some, take,
}
use distributed_task_dispath.Bytes.{Bytes, codes, c_str}
use distributed_task_dispath.Zookeeper.{
  Zookeeper, World, persistent, zeroed, zoo_get, zoo_exists, zoo_set, zoo_create, zoo_delete,
}
use distributed_task_dispath.Cluster.Paths.{g_path_files, g_path_works, g_path_elect, child}

module _ (zk : Zookeeper) where
  -- `while (ret != ZOK) ret = zoo_create(...)`, on fuel; `none` means that the fuel ran out.
  unfoldable pub create_until_ok : ℕ → Bytes → Bytes → World zk → Option (World zk)
  create_until_ok zero path value w = none
  create_until_ok (suc fuel) path value w =
      let (w', ret) = zoo_create zk path value persistent w in
      elim ret [ true ↦ some w' | false ↦ create_until_ok fuel path value w' ]

  -- The shape that the three functions share. `others` is what other processes do between the
  -- test and the first `zoo_create`.
  unfoldable pub ensure : (zk.Store → zk.Store) → ℕ → Bytes → Bytes → World zk → Option (World zk)
  unfolding create_until_ok
  ensure others fuel path value w =
      let (there, w1) = zoo_exists zk false path w in
      let w2 : World zk = record w1 { store = others w1.store } in
      elim there [ true ↦ some w2 | false ↦ create_until_ok fuel path value w2 ]

  -- `create`, the end of `pre_clst`.
  unfoldable pub create_files : (zk.Store → zk.Store) → ℕ → World zk → Option (World zk)
  unfolding ensure
  create_files others fuel = ensure others fuel g_path_files (codes "file")

  unfoldable pub create_works : (zk.Store → zk.Store) → ℕ → World zk → Option (World zk)
  unfolding ensure
  create_works others fuel = ensure others fuel g_path_works (codes "work")

  unfoldable pub create_elect : (zk.Store → zk.Store) → ℕ → World zk → Option (World zk)
  unfolding ensure
  create_elect others fuel = ensure others fuel g_path_elect (codes "elct")

  unfoldable pub insr2clst : Bytes → World zk → World zk
  unfolding zoo_create
  insr2clst file_no w = (zoo_create zk (child g_path_files file_no) (codes "r") persistent w).0

  -- `none` is `exit(EXIT_FAILURE)`.
  unfoldable pub dlt : Bytes → World zk → Option (World zk)
  unfolding zoo_delete
  dlt file_no w =
      let (w', ok) = zoo_delete zk (child g_path_files file_no) w in
      elim ok [ true ↦ some w' | false ↦ none ]

  -- One byte of the value is written: its first, or the zero that ends an empty text.
  unfoldable pub st : Bytes → Bytes → World zk → World zk
  unfolding zoo_set
  st file_no value w = zoo_set zk (child g_path_files file_no) (take 1 (value ++ 0 ∷ [])) w

  unfoldable pub gt : Bytes → World zk → Bytes × World zk
  unfolding zoo_get
  gt file_no w =
      let (ret, value, w') = zoo_get zk false (child g_path_files file_no) (zeroed 64) w in
      (take value.len (c_str value.bytes), w')
