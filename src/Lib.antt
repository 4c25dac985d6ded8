-- ===== src/Lib.antt =====
-- distributed_task_dispath: processes on several nodes share the work of putting task files
-- together again. A ZooKeeper service holds the tasks and the processes, a Tendis cluster holds
-- the data.
--
-- How the parts interact. Each process is `main` of work.cpp. `insrt` reads the node's file into
-- the database (`load`, _read_csv/read_csv.cpp), makes a node under /files for each task, and
-- waits until all five nodes have done so. Then `work` makes the roots /works and /elect,
-- registers a node under each, and takes part in an election (`PREWORK`,
-- _zk_server/clust_comm.cpp). The process behind the least name under /elect is the monitor, the
-- others are workers. The handler of the service's events, `zktest_watcher_g`, runs
-- `dispatch_work` in the monitor, which writes commands w_<file>_<node> into the nodes of idle
-- workers; and `reelect` in all of them, which elects again and lets a new monitor clear away the
-- dead workers (`recover`). A worker reads its command with `recv_work`, puts the file together
-- (`csv_recovery`, _file_recovery/re_file.cpp), copies it to the node that the command names
-- (`send_file`, _auto_scp), and reports the file as done and itself as idle; it leaves its loop
-- when it is told to stop.
--
-- Files and code:
-- Prelude, Bytes: numbers, lists and texts; C strings and std::string as lists of bytes (`c_str`,
--   `strcmp_gt`, `find`, `rfind`, `substr_between`), and decimal numbers (`to_string`, `atoi`,
--   `stoi`).
-- Zookeeper: the C client of the service, which is a parameter (`Zookeeper`), the state of a
--   process (`World`), and one function for each call; Zookeeper/Laws: what the documentation of
--   the client promises, as a record of laws; Zookeeper/Joining: the same of the names below a
--   node.
-- Cluster: _zk_server/clust_comm.cpp. Files: `create_files` (create), `insr2clst`, `dlt`, `st`,
--   `gt`, `create_works`, `create_elect`; Files/Listing: `show_list`; Files/Refines: a map from
--   files to statuses, which these operations keep. Dispatch: `calc_dest_no`, `dispatch_work`,
--   whose loops are `assign`, `offer` and `stop_rest`; Dispatch/Watched: the watches that it asks
--   for. Worker: `recv_work`, `set_wk_st`, `get_workers`. Elect: `choose_mater`, `identify`.
--   Recover: `recover`, whose steps are `give_up_own`, `read_elect` and `clear_workers`, and
--   `reelect`. Register: `regist`, `monitor_work`. Watcher: `zktest_watcher_g`, `prework`
--   (PREWORK); Watcher/Heard: the watches of the handler; Watcher/Joined: the start of a process
--   as a whole; Watcher/Succession: processes that start one after the other. Session: `init`
--   (INIT), `close` (CLOSE), `pre_clst`, `fin_clst`. Interface: what clust_comm.h declares, as a
--   record of operations, and `clust_comm`, which fills it. Localhost: `get_ip` (GetIP),
--   `getlocalhost`; Localhost/Fits: how long that name is. Programs:
--   _zk_server/clust_file_test.cpp and _zk_server/work.cpp, over that record. Kept: what none of
--   these functions does to the files.
-- Work: work.cpp. `cmd_file`, `cmd_task` and `cmd_target` parse a command, `round` is one round of
--   the loop of `work`, and `do_task` its work on one file. Work/Insert: `read_file` and `insrt`,
--   whose wait is `barrier`. Work/Program: the loop (`work_loop`), `work` and `main`;
--   Work/Program/Dismissed: the monitor and a worker together; Work/Program/Completed: the monitor
--   and all workers that it gave a file to; Work/System: any number of processes on one store.
--   Work/SendFile: `send_file` of _auto_scp/passwd_free_scp.h.
-- Tendis: `redis_insert` and `redis_select` of _tendis_server/redis_op.cpp, over the client as a
--   parameter; Tendis/Connection: the constructor and `connect_init`; Tendis/KeyValue: what the
--   program relies on of set and get; Tendis/Bench: _tendis_server/main.cpp.
-- Reader: `insert_to_redis` and `find_total_task_num` (FindTotalTaskNum) of
--   _read_csv/read_csv.cpp; Reader/Load: the members of the class, `load_tasks` (load), and
--   _read_csv/main.cpp; Reader/Restored: the reader and the recovery together.
-- Recovery: _file_recovery/re_file.cpp. `sort_nodes` and `sort_file`, which share `merge_loop`;
--   Recovery/Blocks: `sort_blocks` and `create_block`; Recovery/Csv: `csv_recovery`;
--   Recovery/Program: _file_recovery/main.cpp. The priority queue (Recovery/Queue) and the sort of
--   the C++ library are interfaces.
-- ThreadPool: ThreadPool.h, which _file_recovery, _read_csv and _tendis_server have a copy of
--   each, as a step relation: what a thread or the owner does under the lock is one step, and a
--   waiting thread may wake at any time.
-- RecoveryCsv: _file_recovery/recovery_csv.cpp, an earlier recovery that work.cpp does not call,
--   as tasks of a pool of one thread.
-- Examples: a service, a queue and tools that have the laws, and the theorems applied to them.
--
-- The model. A handler is a function from the state of one process to the next, and what the
-- others do while it sleeps is `meanwhile`, a parameter. Where a loop waits for others, the list
-- of what they do between its rounds is an argument. `none` is a run that does not go on in a
-- defined way: an exception, a process that exits, a vector that a failed call left unset, an
-- index out of range; or a loop that still runs when its fuel or its list has ended. `zoo_get` is
-- given the length that the last read left behind, as in the code. The loops that create a root or
-- open a session run on fuel, a number of rounds, since the code does not bound them. The merge
-- loop runs on fuel that exceeds the number of lines, and the loop over a node's blocks on fuel
-- that exceeds their number. The handler runs in a thread of the client beside the loop of `work`;
-- in the model it runs between two rounds. The tasks of the pool of `load` are run whole, in an
-- order that is an argument. In `round` and `do_task`, csv_recovery and what runs outside the
-- process stand behind an interface (`Tools`), in which csv_recovery gives a number; where the
-- csv_recovery of Recovery/Csv has no value, what is said of a round does not apply to it. What
-- sort_file puts out is what it gives to `fputs`; the code does not close that file.
--
-- Not modelled: hiredis and hiredis-vip, which are copies of other libraries, and the scripts of
-- src. The notifications of the thread pool and the memory accesses of the threads of RecoveryCsv
-- that are not under its mutex are not modelled: nothing is said about a thread that has to be
-- woken, or about a pool of RecoveryCsv with more than one thread. The system of processes
-- (Work/System) has the rounds, the handler, the start and the insertion of files, and not the
-- ends of sessions or `dlt`. Printing is left out where it is not the purpose of the function, and
-- so is the memory that is given back. The passwords of the nodes are parameters. A line is taken
-- to have a comma within the 20 bytes of `line_num_str`.
pub mod Prelude
pub mod Bytes
pub mod Zookeeper
pub mod Cluster
pub mod Work
pub mod Tendis
pub mod Recovery
pub mod ThreadPool
pub mod RecoveryCsv
pub mod Reader
pub mod Examples
