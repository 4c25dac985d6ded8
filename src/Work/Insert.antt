-- ===== src/Work/Insert.antt =====
-- The first half of work.cpp: `read_file` puts the node's file into the database and the tasks into
-- the cluster, and `insrt` does so once, and waits until all five nodes have.
pub mod Missed
pub mod Barrier
use distributed_task_dispath.Prelude.{
  ℕ, zero, suc, Bool, true, false, ◌&&◌, List, [], ◌∷◌, ◌++◌, Option, none, some, get_or, length,
  ltb, if◌then◌else◌, ◌>>=◌,
}
use distributed_task_dispath.Prelude.Int.{ℤ, pos}
use distributed_task_dispath.Bytes.{Bytes, codes, bytes_eq}
use distributed_task_dispath.Bytes.Decimal.{to_string, to_string_int}
use distributed_task_dispath.Zookeeper.{Zookeeper, World}
use distributed_task_dispath.Cluster.Files.{insr2clst}
use distributed_task_dispath.Cluster.Session.{Sessions, pre_clst, fin_clst}
use distributed_task_dispath.Tendis.{Tendis, redis_insert, redis_select}
use distributed_task_dispath.Reader.{insert_to_redis}
use distributed_task_dispath.Reader.Load.{
  ReadCsv, defaults, new_read_csv, set_path, set_file_name, set_node_id, set_thread_num,
  set_loop_num, set_line_per_insert, find_tasks, load_tasks,
}

-- The settings of `read_file`.
unfoldable pub settings : ℤ → ReadCsv
settings node_id = set_line_per_insert 1000 (
    set_loop_num 20 (
      set_thread_num 10 (
        set_node_id node_id (
          set_file_name (codes "node_" ++ to_string_int node_id ++ codes ".csv")
            (set_path (codes "./") (new_read_csv defaults))))))

-- The loop over the tasks from `i` on, `left` of them. `none` is a read behind the flags.
unfoldable pub insert_tasks : (zk : Zookeeper) → List Bool → ℕ → ℕ → World zk → Option (World zk)
unfolding insr2clst
insert_tasks zk flags zero i w = some w
insert_tasks zk flags (suc left) i w =
    let w1 = if get_or flags i false then insr2clst zk (to_string i) w else w in
    let rest = insert_tasks zk flags left (suc i) w1 in
    elim (ltb i (length flags)) [ false ↦ none | true ↦ rest ]

-- The query and the answer of the barrier.
unfoldable pub status_query : ℤ → Bytes
status_query node_id = codes "get node_status" ++ to_string_int node_id

abbrev pub ready : Bytes
ready = codes "ok"

module _ (db : Tendis) where
  -- The tasks of the pool of `load`, run whole in the order of the list: `none` is a line that
  -- `insert_to_redis` does not stand.
  unfoldable pub run_load : ReadCsv → List Bytes → List ℕ → db.Data → Option db.Data
  unfolding insert_to_redis
  run_load r lines [] d = some d
  run_load r lines (task ∷ tasks) d = do
    d1 ← insert_to_redis db r.node_id r.line_per_insert (pos task) lines d
    run_load r lines tasks d1

  -- `flag`, the conjunction of `vec`, after the queries for the nodes from `i` on, `left` of them.
  unfoldable pub ask_nodes : ℕ → ℕ → db.Data → Bool × db.Data
  unfolding status_query redis_select
  ask_nodes zero i d = (true, d)
  ask_nodes (suc left) i d =
      let (ret, d1) = redis_select db (status_query (pos i)) d in
      let (rest, d2) = ask_nodes left (suc i) d1 in (bytes_eq ret ready && rest, d2)

  -- The loop. Before each round the other processes do something; `none` is a loop that still runs
  -- when the list ends.
  unfoldable pub barrier : List (db.Data → db.Data) → db.Data → Option db.Data
  barrier [] d = none
  barrier (others ∷ turns) d =
      let (flag, d1) = ask_nodes 5 0 (others d) in
      elim flag [ true ↦ some d1 | false ↦ barrier turns d1 ]

  module _ (zk : Zookeeper) (sessions : Sessions zk) (others : zk.Store → zk.Store) (fuel : ℕ) where
    -- `order` is the order in which the pool does its tasks.
    unfoldable pub read_file :
        (List ℕ → List ℕ) → ℤ → List Bytes → World zk → db.Data → Option (World zk × db.Data)
    unfolding settings find_tasks load_tasks run_load insert_tasks pre_clst fin_clst
    read_file order node_id lines w d = do
      r ← find_tasks lines (settings node_id)
      tasks ← load_tasks r
      d1 ← run_load r lines (order tasks) d
      (f_zkhandle, n, w1) ← pre_clst zk sessions others fuel 0 w
      w2 ← insert_tasks zk r.is_member_of_task r.loop_num 1 w1
      some (fin_clst zk sessions f_zkhandle w2, d1)

    -- `insrt`; `turns` is what the others do during the wait.
    unfoldable pub insrt :
        (List ℕ → List ℕ)
        → List (db.Data → db.Data)
        → ℤ
        → List Bytes
        → World zk
        → db.Data
        → Option (World zk × db.Data)
    unfolding status_query read_file barrier redis_select redis_insert
    insrt order turns node_id lines w d = do
      (ret, d0) ← some (redis_select db (status_query node_id) d)
      (w1, d1) ←
          (if bytes_eq ret ready then some (w, d0) else (do
            (w', d') ← read_file order node_id lines w d0
            some (
              w',
              redis_insert db (codes "set node_status" ++ to_string_int node_id ++ codes " ok") d',
            )))
      d2 ← barrier turns d1
      some (w1, d2)
