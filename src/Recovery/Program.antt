-- ===== src/Recovery/Program.antt =====
-- `main` of _file_recovery/main.cpp: the file of task 1 is put together, once more if that failed.
use distributed_task_dispath.Prelude.{ℕ, Bool, true, false, List, Option, none, some}
use distributed_task_dispath.Prelude.Int.{ℤ, pos}
use distributed_task_dispath.Bytes.{Bytes}
use distributed_task_dispath.Tendis.{Tendis}
use distributed_task_dispath.Recovery.Blocks.{Sorter, is_error}
use distributed_task_dispath.Recovery.Csv.{csv_recovery}
use distributed_task_dispath.Recovery.Queue.{PriorityQueue}

module _ (pq : PriorityQueue) (sorter : Sorter) (db : Tendis) (fuel merge_fuel : ℕ) where
  -- `meanwhile` is what the others do to the database in the minute between the two tries, and
  -- `fresh_again` what stands in the array of the second. The result is the code, which `main` drops,
  -- and the task's file.
  unfoldable pub main :
      (fresh fresh_again : ℕ → List Bool)
      → (db.Data → db.Data)
      → db.Data
      → Option ((ℤ × List Bytes) × db.Data)
  unfolding csv_recovery
  main fresh fresh_again meanwhile d =
      elim (csv_recovery pq sorter db (pos 1) fuel merge_fuel fresh d) [
        | none ↦ none
        | some ((ret, out), d1) ↦ elim (is_error ret) [
          | false ↦ some ((ret, out), d1)
          | true ↦ csv_recovery pq sorter db (pos 1) fuel merge_fuel fresh_again (meanwhile d1)
        ]
      ]
