-- ===== src/Cluster/Elect.antt =====
-- The election of _zk_server/clust_comm.cpp: the process behind the least name under /elect is the
-- monitor. `none` is a run that goes on with a vector which a failed call left unset.
pub mod Least
pub mod Outcome
pub mod OneMonitor
use distributed_task_dispath.Prelude.{
  Bool, true, false, List, [], ◌∷◌, Option, none, some, if◌then◌else◌,
}
use distributed_task_dispath.Bytes.{Bytes, bytes_eq, c_str, strcmp_gt}
use distributed_task_dispath.Zookeeper.{
  Zookeeper, World, WorkMode, mode_monitor, mode_worker, zeroed, zoo_get, zoo_get_children,
}
use distributed_task_dispath.Cluster.Paths.{child}

-- The loop that keeps the least name in `master`.
unfoldable pub least : Bytes → List Bytes → Bytes
least master [] = master
least master (p ∷ ps) = least (if strcmp_gt master p then p else master) ps

module _ (zk : Zookeeper) (localhost : Bytes) where
  unfoldable pub choose_mater : Bytes → World zk → Option (World zk)
  unfolding least zoo_get_children zoo_get
  choose_mater path w =
      let (procs, w1) = zoo_get_children zk true path w in
      elim procs [
        | none ↦ none
        | some ps ↦ elim ps [
          | [] ↦ some w1
          | p ∷ rest ↦
              let (ret, ip_pid, w2) = zoo_get zk false (child path (least p rest)) (zeroed 64) w1 in
              some (
                if ret
                then record w2 {
                  g_mode =
                      if bytes_eq (c_str ip_pid.bytes) localhost then mode_monitor else mode_worker;
                }
                else w2)
        ]
      ]

  unfoldable pub identify : Bytes → World zk → Option (World zk)
  unfolding choose_mater
  identify path w =
      let (procs, w1) = zoo_get_children zk true path w in
      elim procs [
        | none ↦ none
        | some ps ↦ elim ps [
          | [] ↦ some w1
          | p ∷ rest ↦ elim rest [
            | [] ↦ some (record w1 { g_mode = mode_monitor })
            | q ∷ more ↦ choose_mater path w1
          ]
        ]
      ]
