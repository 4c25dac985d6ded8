-- ===== src/Cluster/Register.antt =====
-- `regist` and `monitor_work` of _zk_server/clust_comm.cpp: a process makes its two nodes and asks
-- for its watches.
use distributed_task_dispath.Prelude.{true, List, [], ◌∷◌, Option, none, some, take}
use distributed_task_dispath.Bytes.{Bytes, codes}
use distributed_task_dispath.Zookeeper.{
  Zookeeper, World, Buffer, mode_monitor, mode_worker, persistent, ephemeral_sequence, zeroed, pad,
  zoo_get, zoo_get_children, zoo_exists, zoo_create,
}
use distributed_task_dispath.Cluster.Paths.{g_path_elect, g_path_works, child}

module _ (zk : Zookeeper) (localhost : Bytes) where
  -- The node under /elect holds the first 24 bytes of the name's array, and goes with the session.
  unfoldable pub regist : World zk → World zk
  unfolding zoo_create
  regist w =
      let (w1, ok1) =
        zoo_create zk (child g_path_elect (codes "proc-")) (take 24 (pad 512 localhost))
          ephemeral_sequence w in
      let (w2, ok2) = zoo_create zk (child g_path_works localhost) (codes "s") persistent w1 in w2

  -- The monitor's loop over the children, which reads each with a watch.
  unfoldable pub watch_all : Bytes → List Bytes → Buffer → World zk → World zk
  unfolding zoo_get
  watch_all path [] b w = w
  watch_all path (name ∷ names) b w =
      let (ret, b', w') = zoo_get zk true (child path name) b w in watch_all path names b' w'

  -- `none` is the loop that frees a vector which a failed call left unset.
  unfoldable pub monitor_work : Bytes → World zk → Option (World zk)
  unfolding watch_all zoo_get_children zoo_exists
  monitor_work path w = elim w.g_mode [
    | mode_monitor ↦
        let (children, w1) = zoo_get_children zk true path w in
        elim children [ none ↦ none | some names ↦ some (watch_all path names (zeroed 1024) w1) ]
    | mode_worker ↦ some (zoo_exists zk true (child path localhost) w).1
  ]
