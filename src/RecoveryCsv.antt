-- ===== src/RecoveryCsv.antt =====
-- _file_recovery/recovery_csv.cpp: the class RecoveryCsv, an earlier recovery of a task's file, one
-- key of the database for each line. `do_write` and `do_select` are tasks of a pool of `thread_num_`
-- threads, which is one.
pub mod OneThread
use distributed_task_dispath.Prelude.{
  ℕ, zero, suc, ◌+◌, Bool, true, false, List, [], ◌∷◌, ◌++◌, Option, none, some, ◌==◌,
  if◌then◌else◌,
}
use distributed_task_dispath.Prelude.Int.{ℤ, pos, negsuc}
use distributed_task_dispath.Bytes.{Bytes, codes}
use distributed_task_dispath.Bytes.Decimal.{atoi, to_string, to_string_int}
use distributed_task_dispath.Tendis.{Tendis, redis_select}
use distributed_task_dispath.Recovery.Queue.{ltz}
use distributed_task_dispath.ThreadPool.{ThreadPool, start_pool}

abbrev pub thread_num : ℕ
thread_num = 1

-- The class, with the lines of the file that `fp` writes. `do_select` holds the mutex for its change.
pub record RecoveryCsv (db : Tendis) : Type 0 where
  pub rd : db.Data
  pub write_flag : ℕ
  pub task_id : ℤ
  pub total_blocks : ℤ
  pub buf_queue : List Bytes
  pub file : List Bytes

-- The text of a key, "<t>_<b>".
unfoldable pub line_key : ℤ → ℕ → Bytes
line_key task_id block_id = to_string_int task_id ++ codes "_" ++ to_string block_id

-- The query of the constructor.
unfoldable pub max_block_query : ℤ → ℕ → Bytes
max_block_query task_id node_id =
    codes "get "
    ++ (codes "node_id_"
        ++ to_string node_id
        ++ codes "_"
        ++ codes "task_id_"
        ++ to_string_int task_id)

-- The tasks that `do_recovery` gives to the pool.
pub data Task : Type 0 where
  write_task : Task
  select_task : ℕ → Task

abbrev select_tasks : ℕ → ℕ → List Task
select_tasks zero block_id = []
select_tasks (suc left) block_id = select_task block_id ∷ select_tasks left (suc block_id)

abbrev pub blocks_of : ℤ → ℕ
blocks_of (pos n) = n
blocks_of (negsuc n) = 0

module _ (db : Tendis) where
  -- The loop over the nodes that are left, of which the greatest block number is kept.
  unfoldable pub ask_blocks : ℤ → ℕ → ℕ → ℤ → db.Data → ℤ × db.Data
  ask_blocks task_id zero node_id total_blocks d = (total_blocks, d)
  ask_blocks task_id (suc left) node_id total_blocks d =
      let (value, d1) = redis_select db (max_block_query task_id node_id) d in
      let max_block_id = atoi value in
      ask_blocks task_id left (suc node_id)
        (if ltz total_blocks max_block_id then max_block_id else total_blocks) d1

  -- The constructor: what the loop found is replaced by 10000.
  unfoldable pub new_recovery : ℤ → db.Data → RecoveryCsv db
  unfolding ask_blocks
  new_recovery task_id d =
      let (total_blocks, d1) = ask_blocks task_id 5 1 (pos 0) d in
      record {
        rd = d1;
        write_flag = 1;
        task_id = task_id;
        total_blocks = pos 10000;
        buf_queue = [];
        file = [];
      }

  -- `do_select`: `none` while the block is not the next one, when the loop goes round.
  unfoldable pub do_select : ℕ → RecoveryCsv db → Option (RecoveryCsv db)
  do_select block_id p =
      let key = line_key p.task_id block_id in
      let (value, d1) = redis_select db (codes "get " ++ key) p.rd in
      let csv_line = key ++ codes "," ++ value ++ (10 ∷ []) in
      if block_id == p.write_flag
      then some (record p {
        rd = d1;
        buf_queue = p.buf_queue ++ csv_line ∷ [];
        write_flag = suc p.write_flag;
      })
      else none

  -- The loop of `do_write`, which holds no mutex, with no other thread at work: every line that is in
  -- the queue.
  unfoldable pub do_write : RecoveryCsv db → RecoveryCsv db
  do_write p = record p { buf_queue = []; file = p.file ++ p.buf_queue }

  -- In the order of `do_recovery`.
  unfoldable pub recovery_tasks : RecoveryCsv db → List Task
  recovery_tasks p = write_task ∷ select_tasks (blocks_of p.total_blocks) 1

  abbrev pub run_task : Task → RecoveryCsv db → Option (RecoveryCsv db)
  run_task write_task p = some (do_write p)
  run_task (select_task block_id) p = do_select block_id p

  -- Tasks that are run one after the other.
  unfoldable pub run_tasks : List Task → RecoveryCsv db → Option (RecoveryCsv db)
  run_tasks [] p = some p
  run_tasks (task ∷ tasks) p = elim (run_task task p) [ none ↦ none | some p' ↦ run_tasks tasks p' ]

  -- The loop of `easy_recovery`: the lines that are written.
  unfoldable pub easy_lines : ℤ → ℕ → ℕ → db.Data → List Bytes × db.Data
  easy_lines task_id zero block_id d = ([], d)
  easy_lines task_id (suc left) block_id d =
      let (value, d1) = redis_select db (codes "get " ++ line_key task_id block_id) d in
      let (lines, d2) = easy_lines task_id left (suc block_id) d1 in
      (
        (to_string_int task_id
              ++ codes ","
              ++ to_string block_id
              ++ codes ","
              ++ value
              ++ (10 ∷ []))
            ∷ lines,
        d2,
      )

  unfoldable pub easy_recovery : RecoveryCsv db → List Bytes × RecoveryCsv db
  unfolding easy_lines
  easy_recovery p =
      let (lines, d1) = easy_lines p.task_id (blocks_of p.total_blocks) 1 p.rd in
      (lines, record p { rd = d1 })
