-- ===== src/Recovery/Blocks.antt =====
-- `sort_blocks` and `create_block` of _file_recovery/re_file.cpp: the blocks of one node are read from
-- the database, sorted, and merged. `std::sort` is an interface, as equal numbers may stand in any
-- order. A file that is written is what is read: every line ends, and is shorter than the buffer.
pub mod Greatest
pub mod Merged
use distributed_task_dispath.Prelude.{
  SameItems, ℕ, zero, suc, ◌+◌, ◌-◌, Bool, true, false, ◌&&◌, List, [], ◌∷◌, ◌++◌, Option, none,
  some, ◌≡◌, ◌==◌, leb, ltb, if◌then◌else◌, ◌>>=◌, length, all,
}
use distributed_task_dispath.Prelude.Int.{ℤ, pos, negsuc}
use distributed_task_dispath.Bytes.{Bytes, codes, bytes_eq}
use distributed_task_dispath.Bytes.Decimal.{to_string, to_string_int}
use distributed_task_dispath.Tendis.{Tendis, redis_select}
use distributed_task_dispath.Recovery.{line_num, sort_nodes}
use distributed_task_dispath.Recovery.Queue.{PriorityQueue, ltz}
use distributed_task_dispath.Recovery.Merge.{ascending}

abbrev pub max_block_size : ℕ
max_block_size = 55000

abbrev pub max_line_size : ℕ
max_line_size = 40

pub record Sorter : Type 0 where
  pub sort : List Bytes → List Bytes
  pub sort-ascending : (ls : List Bytes) → ascending (sort ls) ≡ true
  pub sort-SameItems : (ls : List Bytes) → SameItems (sort ls) ls

-- "get task<t>_<n>_<b>".
unfoldable pub block_query : ℤ → ℤ → ℕ → Bytes
block_query task node block_id =
    codes "get task"
    ++ to_string_int task
    ++ codes "_"
    ++ to_string_int node
    ++ codes "_"
    ++ to_string block_id

-- The lines of a block, each with its line feed; what stands behind the last one is left out.
unfoldable pub split_from : Bytes → Bytes → List Bytes
split_from line [] = []
split_from line (c ∷ s) =
    let next = split_from [] s in
    let longer = split_from (line ++ c ∷ []) s in
    if c == 10 then (line ++ c ∷ []) ∷ next else longer

unfoldable pub split_lines : Bytes → List Bytes
unfolding split_from
split_lines = split_from []

-- The lines and their final zeros have room in `buf`.
abbrev pub have_room : List Bytes → Bool
have_room ls = leb (length ls) max_block_size && all (λ l. ltb (length l) max_line_size) ls

abbrev pub last_of : Bytes → List Bytes → Bytes
last_of l [] = l
last_of l (m ∷ ls) = last_of m ls

abbrev pub max_of : ℤ → ℤ → ℤ
max_of max_line_num n = if ltz max_line_num n then n else max_line_num

abbrev pub is_error : ℤ → Bool
is_error (pos n) = false
is_error (negsuc n) = n == 0

module _ (sorter : Sorter) (db : Tendis) (task node : ℤ) where
  -- The loop, on fuel, from one block on: the two numbers that are returned, and the files. A
  -- block without a line has no last line.
  unfoldable pub sort_blocks : ℕ → ℕ → ℤ → db.Data → Option ((ℤ × ℤ × List (List Bytes)) × db.Data)
  unfolding redis_select split_lines block_query
  sort_blocks zero block_id max_line_num d = none
  sort_blocks (suc fuel) block_id max_line_num d =
      let (block, d1) = redis_select db (block_query task node block_id) d in
      let lines = split_lines block in
      elim (bytes_eq block []) [
        | true ↦ some ((pos (block_id - 1), max_line_num, []), d1)
        | false ↦ elim (bytes_eq block (codes "error")) [
          | true ↦ some ((negsuc 0, negsuc 0, []), d1)
          | false ↦ elim (have_room lines) [
            | false ↦ none
            | true ↦ elim (sorter.sort lines) [
              | [] ↦ none
              | l ∷ ls ↦
                  elim (sort_blocks fuel (suc block_id)
                    (max_of max_line_num (line_num (last_of l ls))) d1) [
                      | none ↦ none
                      | some ((block_num, max_line, files), d2) ↦
                          some ((block_num, max_line, (l ∷ ls) ∷ files), d2)
                    ]
            ]
          ]
        ]
      ]

  -- What is returned, and the node's file where it was written.
  unfoldable pub create_block :
      PriorityQueue → ℕ → ℕ → db.Data → Option ((ℤ × List Bytes) × db.Data)
  unfolding sort_blocks sort_nodes
  create_block pq fuel merge_fuel d = do
    done ← sort_blocks fuel 1 (pos 0) d
    elim (is_error done.0.1) [
      | true ↦ some ((negsuc 0, []), done.1)
      | false ↦ elim (sort_nodes pq merge_fuel done.0.2) [
        | none ↦ none
        | some out ↦ some ((done.0.1, out), done.1)
      ]
    ]
