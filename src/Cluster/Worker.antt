-- ===== src/Cluster/Worker.antt =====
-- What a worker does with its own node (_zk_server/clust_comm.cpp): `recv_work`, `set_wk_st`,
-- and the list of the workers, `get_workers`.
pub mod Inbox
use distributed_task_dispath.Prelude.{
  Bool, true, false, List, [], ◌∷◌, Option, none, some, ◌==◌, if◌then◌else◌,
}
use distributed_task_dispath.Bytes.{Bytes, codes, c_str}
use distributed_task_dispath.Zookeeper.{
  Zookeeper, World, zeroed, first, zoo_get, zoo_get_children, zoo_set,
}
use distributed_task_dispath.Cluster.Paths.{g_path_works, child}

module _ (zk : Zookeeper) (localhost : Bytes) where
  -- The command that waits in the node, or the empty text.
  unfoldable pub recv_work : World zk → Bytes × World zk
  unfolding zoo_get
  recv_work w =
      let (ret, wk_cont, w') = zoo_get zk true (child g_path_works localhost) (zeroed 64) w in
      (if first wk_cont.bytes == b'w' then c_str wk_cont.bytes else [], w')

  unfoldable pub set_wk_st : World zk → World zk
  unfolding zoo_set
  set_wk_st = zoo_set zk (child g_path_works localhost) (codes "s")

-- `none` is the loop that frees a vector which a failed call left unset.
unfoldable pub get_workers : (zk : Zookeeper) → World zk → Option (List Bytes) × World zk
unfolding zoo_get_children
get_workers zk = zoo_get_children zk true g_path_works
