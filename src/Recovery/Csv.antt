-- ===== src/Recovery/Csv.antt =====
-- `csv_recovery` of _file_recovery/re_file.cpp: the five nodes' files are made one after the other,
-- since each result is waited for before the next task goes to the pool, and then put together.
pub mod Overrun
use distributed_task_dispath.Prelude.{
  ℕ, zero, suc, Bool, true, false, List, [], ◌∷◌, Option, none, some, ◌>>=◌,
}
use distributed_task_dispath.Prelude.Int.{ℤ, pos, negsuc}
use distributed_task_dispath.Bytes.{Bytes}
use distributed_task_dispath.Tendis.{Tendis}
use distributed_task_dispath.Recovery.{sort_file}
use distributed_task_dispath.Recovery.Queue.{PriorityQueue}
use distributed_task_dispath.Recovery.Blocks.{Sorter, max_of, is_error, create_block}

-- What `create_block` gave for a node: the number, and the file.
abbrev pub Made : Type 0
Made = ℤ × List Bytes

abbrev pub files_of : List Made → List (List Bytes)
files_of [] = []
files_of ((n, file) ∷ made) = file ∷ files_of made

-- `sort` and `line_nums.back()`: the greatest of the numbers.
abbrev pub greatest_num : ℤ → List Made → ℤ
greatest_num m [] = m
greatest_num m ((n, file) ∷ made) = greatest_num (max_of m n) made

module _ (pq : PriorityQueue) (sorter : Sorter) (db : Tendis) (task : ℤ) (fuel merge_fuel : ℕ) where
  -- The loop over the nodes that are left; the list is missing if one of them has failed.
  unfoldable pub create_blocks : ℕ → ℕ → db.Data → Option (Option (List Made) × db.Data)
  unfolding create_block
  create_blocks zero node d = some (some [], d)
  create_blocks (suc left) node d =
      elim (create_block sorter db task (pos node) pq fuel merge_fuel d) [
        | none ↦ none
        | some ((max_line, file), d1) ↦ elim (is_error max_line) [
          | true ↦ some (none, d1)
          | false ↦ elim (create_blocks left (suc node) d1) [
            | none ↦ none
            | some (rest, d2) ↦ elim rest [
              | none ↦ some (none, d2)
              | some made ↦ some (some ((max_line, file) ∷ made), d2)
            ]
          ]
        ]
      ]

  -- What is returned, and the task's file where it was written. `fresh` gives what stands in a new
  -- array of so many elements, and a negative number of elements is an exception.
  unfoldable pub csv_recovery : (ℕ → List Bool) → db.Data → Option ((ℤ × List Bytes) × db.Data)
  unfolding create_blocks sort_file
  csv_recovery fresh d = elim (create_blocks 5 0 d) [
    | none ↦ none
    | some (done, d1) ↦ elim done [
      | none ↦ some ((negsuc 0, []), d1)
      | some [] ↦ none
      | some ((n, file) ∷ made) ↦ elim (greatest_num n made) [
        | negsuc k ↦ none
        | pos max_line ↦
            elim (sort_file pq merge_fuel task (fresh max_line) (file ∷ files_of made)) [
              | none ↦ none
              | some out ↦ some ((pos 0, out), d1)
            ]
      ]
    ]
  ]
