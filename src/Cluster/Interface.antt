-- ===== src/Cluster/Interface.antt =====
-- What _zk_server/clust_comm.h declares, as a record of operations, and the functions of
-- clust_comm.cpp that stand behind it. The header's names `pr` and `fin` are those of older functions:
-- the code defines pre_clst and fin_clst. `d1` and `d2` are declared and defined nowhere.
use distributed_task_dispath.Prelude.{ℕ, List, Option}
use distributed_task_dispath.Bytes.{Bytes}
use distributed_task_dispath.Zookeeper.{Zookeeper, World}
use distributed_task_dispath.Cluster.Files.{insr2clst, dlt, st, gt}
use distributed_task_dispath.Cluster.Session.{Sessions, init, close, debug, pre_clst, fin_clst}
use distributed_task_dispath.Cluster.Watcher.{prework}
use distributed_task_dispath.Cluster.Worker.{recv_work, set_wk_st, get_workers}

-- A handle stands for the session that the code keeps in `f_zkhandle` or is given as `zkhandle`, and
-- ℕ for the number of the next call that opens a session.
pub record Interface (zk : Zookeeper) (Handle : Type 0) : Type 0 where
  -- The operations on /files.
  pub pr : World zk → Option (Handle × ℕ × World zk)
  pub insr2clst : Bytes → World zk → World zk
  pub dlt : Bytes → World zk → Option (World zk)
  pub st : Bytes → Bytes → World zk → World zk
  pub gt : Bytes → World zk → Bytes × World zk
  pub fin : Handle → World zk → World zk
  -- The operations on /works and /elect.
  pub get_workers : World zk → Option (List Bytes) × World zk
  pub set_wk_st : World zk → World zk
  pub recv_work : World zk → Bytes × World zk
  pub debug : World zk → World zk
  pub init : Option (Handle × ℕ)
  pub close : Handle → World zk → World zk
  pub prework : World zk → Option (World zk)

-- The functions of clust_comm.cpp. `fuel` bounds the loops that open a session or make a root, and
-- `others` is what the other processes do between the test for a root and the first try to make it.
abbrev pub clust_comm :
    (zk : Zookeeper) (sessions : Sessions zk)
    → Bytes
    → (zk.Store → zk.Store)
    → ℕ
    → Interface zk sessions.Handle
clust_comm zk sessions localhost others fuel = record {
  pr = pre_clst zk sessions others fuel 0;
  insr2clst = insr2clst zk;
  dlt = dlt zk;
  st = st zk;
  gt = gt zk;
  fin = fin_clst zk sessions;
  get_workers = get_workers zk;
  set_wk_st = set_wk_st zk localhost;
  recv_work = recv_work zk localhost;
  debug = debug;
  init = init zk sessions fuel 0;
  close = close zk sessions;
  prework = prework zk localhost others fuel;
}
