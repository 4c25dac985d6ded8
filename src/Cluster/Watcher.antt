-- ===== src/Cluster/Watcher.antt =====
-- `zktest_watcher_g` of _zk_server/clust_comm.cpp, the handler of the events of the service, and
-- `PREWORK`, the start of a process.
pub mod Registered
pub mod Returns
pub mod Heard
pub mod Elected
pub mod Joined
pub mod Succession
use distributed_task_dispath.Prelude.{
  ℕ, Bool, true, false, ◌&&◌, ◌||◌, Option, some, take, length, ltb, if◌then◌else◌, ◌>>=◌,
}
use distributed_task_dispath.Bytes.{Bytes, bytes_eq}
use distributed_task_dispath.Zookeeper.{Zookeeper, World, mode_monitor, mode_worker}
use distributed_task_dispath.Cluster.Paths.{g_path_elect, g_path_works}
use distributed_task_dispath.Cluster.Files.{create_works, create_elect}
use distributed_task_dispath.Cluster.Dispatch.{dispatch_work}
use distributed_task_dispath.Cluster.Worker.{recv_work}
use distributed_task_dispath.Cluster.Elect.{identify}
use distributed_task_dispath.Cluster.Register.{regist, monitor_work}
use distributed_task_dispath.Cluster.Recover.{reelect}

-- ZOO_CHILD_EVENT, ZOO_CHANGED_EVENT and the types that the handler passes over.
pub data EventType : Type 0 where
  child_event changed_event other_event : EventType

abbrev pub is_child : EventType → Bool
is_child child_event = true
is_child changed_event = false
is_child other_event = false

abbrev pub is_changed : EventType → Bool
is_changed child_event = false
is_changed changed_event = true
is_changed other_event = false

-- `connected` is `state == ZOO_CONNECTED_STATE`; `memcpy(e_path, path, 6)` is the path's beginning.
module _ (zk : Zookeeper) (localhost : Bytes) where
  unfoldable pub zktest_watcher_g : EventType → Bool → Bytes → World zk → Option (World zk)
  unfolding dispatch_work reelect recv_work
  zktest_watcher_g type connected path w =
      let e_path = take 6 path in
      let on_works = bytes_eq e_path g_path_works in
      let on_elect = bytes_eq e_path g_path_elect in
      elim w.g_mode [
        | mode_monitor ↦
            if on_works && (is_child type && connected || is_changed type && connected)
            then dispatch_work zk localhost w
            else if on_elect && (is_child type && connected)
            then reelect zk localhost w
            else some w
        | mode_worker ↦
            if on_works && (ltb 6 (length path) && (is_changed type && connected))
            then some (recv_work zk localhost w).1
            else if on_elect && (is_child type && connected)
            then reelect zk localhost w
            else some w
      ]

  -- `fuel` bounds the two loops that create the roots, and `others` acts before each.
  unfoldable pub prework : (zk.Store → zk.Store) → ℕ → World zk → Option (World zk)
  unfolding create_works create_elect regist identify monitor_work
  prework others fuel w = do
    w1 ← create_works zk others fuel w
    w2 ← create_elect zk others fuel w1
    w3 ← identify zk localhost g_path_elect (regist zk localhost w2)
    monitor_work zk localhost g_path_works w3
