-- ===== src/Examples/RecoveryCsv.antt =====
-- The theorems about _file_recovery/recovery_csv.cpp, applied: a database with the lines of task 7.
use distributed_task_dispath.Prelude.{[], ◌∷◌, some, ◌≡◌, refl, length}
use distributed_task_dispath.Prelude.Int.{pos}
use distributed_task_dispath.Bytes.{Bytes, codes}
use distributed_task_dispath.Tendis.{Tendis}
use distributed_task_dispath.RecoveryCsv.{
  RecoveryCsv, write_task, select_task, run_tasks, recovery_tasks,
}
use distributed_task_dispath.RecoveryCsv.OneThread.{do_recovery-writes_nothing}
use distributed_task_dispath.Examples.ThreadPool.{ended-Reach}

-- Each query is answered with x, and nothing is stored.
abbrev db : Tendis
db = record { Data = Bytes; command = λ cmd d. (some (some (codes "x")), d) }

-- An object with two blocks.
abbrev two_blocks : RecoveryCsv db
two_blocks = record {
  rd = codes "stored";
  write_flag = 1;
  task_id = pos 7;
  total_blocks = pos 2;
  buf_queue = [];
  file = [];
}

do_recovery-writes_nothing_example :
    (q : RecoveryCsv db) × (run_tasks db
        (write_task ∷ select_task 1 ∷ select_task 2 ∷ [])
        two_blocks
      ≡ some q)
    × (q.file ≡ [])
    × (length q.buf_queue ≡ 2)
unfolding recovery_tasks
do_recovery-writes_nothing_example =
    do_recovery-writes_nothing db two_blocks
      (ended-Reach write_task (select_task 1) (select_task 2)) refl refl refl refl refl
