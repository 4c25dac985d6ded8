-- ===== src/Reader.antt =====
-- _read_csv/read_csv.cpp: the lines of one task go from the node's file into the database, in blocks.
-- The file is the list of the lines that `fgets` gives. `none` is undefined behaviour.
pub mod Stored
pub mod Load
pub mod Restored
use distributed_task_dispath.Prelude.{
  ℕ, zero, suc, ◌+◌, ◌-◌, Bool, true, false, ◌&&◌, not, List, [], ◌∷◌, ◌++◌, Option, none, some,
  ◌==◌, ltb, leb, if◌then◌else◌, length, take, drop,
}
use distributed_task_dispath.Prelude.Int.{ℤ, pos, negsuc}
use distributed_task_dispath.Bytes.{Bytes, codes, find}
use distributed_task_dispath.Bytes.Decimal.{atoi, to_string, to_string_int}
use distributed_task_dispath.Tendis.{Tendis, redis_insert}
use distributed_task_dispath.Recovery.{mark}

abbrev pub same_int : ℤ → ℤ → Bool
same_int (pos a) (pos b) = a == b
same_int (pos a) (negsuc b) = false
same_int (negsuc a) (pos b) = false
same_int (negsuc a) (negsuc b) = a == b

-- `id_str_` has room for two bytes and a zero; without a comma `strchr` gives no end.
unfoldable pub has_id : Bytes → Bool
has_id line = let end = find b',' line in ltb 0 end && leb end 3

unfoldable pub line_id : Bytes → ℤ
line_id line = atoi (take (find b',' line - 1) line)

-- The command that stores a block.
unfoldable pub set_block : ℤ → ℤ → ℕ → Bytes → Bytes
set_block task node block_idx str =
    codes "set task"
    ++ to_string_int task
    ++ (codes "_" ++ to_string_int node ++ codes "_")
    ++ to_string block_idx
    ++ codes " "
    ++ str

module _ (db : Tendis) (node : ℤ) (line_per_insert : ℕ) (task : ℤ) where
  -- The loop, with `str`, `index` and `block_idx`, and what follows it.
  unfoldable pub insert_lines : List Bytes → Bytes → ℕ → ℕ → db.Data → Option db.Data
  unfolding redis_insert set_block has_id line_id
  insert_lines [] str index block_idx d =
      some (redis_insert db (set_block task node block_idx str) d)
  insert_lines (line ∷ lines) str index block_idx d =
      let full = index == line_per_insert in
      let d1 = if full then redis_insert db (set_block task node block_idx str) d else d in
      let block_idx1 = if full then suc block_idx else block_idx in
      let index1 = if full then 0 else index in
      let str1 = if full then [] else str in
      let ours = same_int task (line_id line) in
      let rest =
        insert_lines lines (if ours then str1 ++ drop (length (to_string_int task)) line else str1)
          (if ours then suc index1 else index1) block_idx1 d1 in
      if has_id line then rest else none

  unfoldable pub insert_to_redis : List Bytes → db.Data → Option db.Data
  unfolding insert_lines
  insert_to_redis lines d = insert_lines lines [] 0 1 d

-- The tasks that the file has lines of, in `isMemberOfTask`; without a comma the text is the line.
unfoldable pub find_total_task_num : List Bytes → List Bool → Option (List Bool)
find_total_task_num [] members = some members
find_total_task_num (line ∷ lines) members =
    let end = find b',' line in
    elim (atoi (if end == 0 then line else take (end - 1) line)) [
      | negsuc n ↦ none
      | pos n ↦ elim (ltb n (length members)) [
        | true ↦ find_total_task_num lines (mark members n)
        | false ↦ none
      ]
    ]
