-- ===== src/Cluster/Programs.antt =====
-- The programs of _zk_server that call the operations by hand: clust_file_test.cpp, which walks five
-- files through the file operations, and work.cpp, a worker that prints what it receives.
use distributed_task_dispath.Prelude.{ℕ, List, [], ◌∷◌, ◌++◌, Option, none, some, map, ◌>>=◌}
use distributed_task_dispath.Bytes.{Bytes}
use distributed_task_dispath.Bytes.Decimal.{to_string}
use distributed_task_dispath.Zookeeper.{Zookeeper, World, mode_monitor, mode_worker, sleep}
use distributed_task_dispath.Cluster.Interface.{Interface}
use distributed_task_dispath.Cluster.Files.Refines.{Operation, inserts, sets, gets, run_files}

-- `no` of clust_file_test.cpp, and the names of its files.
abbrev pub file_names : List Bytes
file_names = map to_string (0 ∷ 1 ∷ 2 ∷ 3 ∷ 4 ∷ [])

-- The third loop reads a word for each file; `>>` gives a word that is not empty, by its first byte
-- and the rest.
abbrev pub set_words : List Bytes → List (ℕ × Bytes) → List Operation
set_words [] words = []
set_words (f ∷ fs) [] = []
set_words (f ∷ fs) ((c, v) ∷ words) = sets f c v ∷ set_words fs words

-- The first four loops of `main`.
unfoldable pub test_operations : List (ℕ × Bytes) → List Operation
test_operations words =
    map inserts file_names
    ++ map gets file_names
    ++ set_words file_names words
    ++ map gets file_names

-- What the work of _zk_server/work.cpp prints in a round.
pub record Printed : Type 0 where
  pub received : Bytes
  pub workers : List Bytes

-- A session, and the operations of clust_comm.h, on which the programs stand.
module _ (zk : Zookeeper) {Handle : Type 0} (cluster : Interface zk Handle) where
  open cluster use {pr, dlt, fin, recv_work, get_workers, init, prework}

  -- The last loop; `none` is the exit of `dlt`.
  unfoldable pub delete_all : List Bytes → World zk → Option (World zk)
  delete_all [] w = some w
  delete_all (f ∷ fs) w = do w1 ← dlt f w; delete_all fs w1

  -- `main` of clust_file_test.cpp: what the second and the fourth loop print. The loops wait for a
  -- key after each call.
  unfoldable pub clust_file_test : List (ℕ × Bytes) → World zk → Option (List Bytes × World zk)
  unfolding test_operations run_files delete_all
  clust_file_test words w = do
    (f_zkhandle, n, w0) ← pr w
    (printed, w1) ← some (run_files zk (test_operations words) w0)
    w2 ← delete_all file_names w1
    some (printed, fin f_zkhandle w2)

  -- The body of the loop of `work`; `none` is the vector of `get_workers` that a failed call left unset.
  unfoldable pub print_round : World zk → Option (List Printed × World zk)
  print_round w = elim w.g_mode [
    | mode_monitor ↦ some ([], w)
    | mode_worker ↦
        let (received, w1) = recv_work w in
        let (workers, w2) = get_workers w1 in
        elim workers [
          | none ↦ none
          | some names ↦ some (record { received = received; workers = names } ∷ [], w2)
        ]
  ]

  -- The loop, which does not end: its first rounds. Before each, the process sleeps for a second and
  -- the handler of the events may run.
  unfoldable pub print_rounds :
      List (World zk → World zk) → World zk → Option (List Printed × World zk)
  unfolding print_round sleep
  print_rounds [] w = some ([], w)
  print_rounds (events ∷ turns) w = do
    (printed, w1) ← print_round (events (sleep zk 1 w))
    (rest, w2) ← print_rounds turns w1
    some (printed ++ rest, w2)

  -- `work` of _zk_server/work.cpp, as far as these rounds.
  unfoldable pub server_work :
      List (World zk → World zk) → zk.Store → Option (List Printed × World zk)
  unfolding print_rounds
  server_work turns s = do
    (zkhandle, n) ← init
    w ← prework (record { store = s; watches = []; g_mode = mode_worker })
    print_rounds turns w
