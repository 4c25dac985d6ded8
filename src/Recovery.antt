-- ===== src/Recovery.antt =====
-- _file_recovery/re_file.cpp: a task's file is put together again from the blocks in the database.
-- A file on disk is the list of the lines that `fgets` gives. `none` is undefined behaviour.
pub mod Queue
pub mod Merge
pub mod Trace
pub mod Opened
pub mod Output
pub mod Picked
pub mod Once
pub mod Blocks
pub mod Csv
pub mod Program
use distributed_task_dispath.Prelude.{
  ℕ, zero, suc, ◌+◌, ◌-◌, Bool, true, false, List, [], ◌∷◌, ◌++◌, Option, none, some, ◌==◌, leb,
  ltb, if◌then◌else◌, ◌>>=◌, length, get_or, drop, take, map,
}
use distributed_task_dispath.Prelude.Int.{ℤ, pos, negsuc}
use distributed_task_dispath.Bytes.{Bytes, codes, find, bytes_eq}
use distributed_task_dispath.Bytes.Decimal.{atoi, to_string_int, to_string}
use Queue.{PriorityQueue, Entry, ltz}

-- `strncpy(line_num_str, buf + 1, strchr(buf + 1, ',') - buf - 1)`: the text behind the first byte
-- and before the next comma, which is taken to stand within the 20 bytes of the array.
unfoldable pub line_num : Bytes → ℤ
line_num line = let field = drop 1 line in atoi (take (find b',' field - 1) field)

-- `buf[i]` and what `fgets` has still to give from `fp[i]`.
pub record Stream : Type 0 where
  pub buf : Bytes
  pub rest : List Bytes

abbrev pub closed : Stream
closed = record { buf = []; rest = [] }

abbrev pub put : List Stream → ℕ → Stream → List Stream
put [] i s = []
put (t ∷ ss) zero s = s ∷ ss
put (t ∷ ss) (suc i) s = t ∷ put ss i s

-- The first `fgets` on every file; on an empty file it leaves the array unset.
unfoldable pub open_streams : List (List Bytes) → Option (List Stream)
open_streams [] = some []
open_streams ([] ∷ files) = none
open_streams ((l ∷ ls) ∷ files) = do
  ss ← open_streams files
  some (record { buf = l; rest = ls } ∷ ss)

-- `fputs(buf[block_idx], fp_out)`.
abbrev pub write_line : ℤ → Bytes → List Bytes → Option (List Bytes)
write_line n line out = some (out ++ line ∷ [])

-- The bytes at `line_flag`, of which the array has the first `max_line`, and the output.
abbrev pub Marks : Type 0
Marks = List Bool × List Bytes

abbrev pub mark : List Bool → ℕ → List Bool
mark [] i = []
mark (b ∷ bs) zero = true ∷ bs
mark (b ∷ bs) (suc i) = b ∷ mark bs i

-- A line is written the first time that its number comes up.
unfoldable pub write_once : ℤ → ℤ → Bytes → Marks → Option Marks
write_once task (negsuc n) line (flags, out) = none
write_once task (pos n) line (flags, out) =
    if ltb n (length flags)
    then some (
        if get_or flags n false
        then (flags, out)
        else (mark flags n, out ++ (to_string_int task ++ line) ∷ []))
    else none

module _ (pq : PriorityQueue) where
  open pq use {Queue, empty, push, pop}

  -- The loop that pushes the first line of every file.
  unfoldable pub push_all : ℕ → List Stream → Queue → Queue
  push_all i [] q = q
  push_all i (s ∷ ss) q = push_all (suc i) ss (push (i, line_num s.buf) q)

  -- The `while (!pri_queue.empty())` of `sort_nodes` and of `sort_file`, on fuel, which differ in
  -- what they do with the line on top.
  unfoldable pub merge_loop :
      {S : Type 0} → (ℤ → Bytes → S → Option S) → ℕ → Queue → List Stream → S → Option S
  merge_loop emit zero q ss st = none
  merge_loop emit (suc fuel) q ss st = elim (pop q) [
    | none ↦ some st
    | some (x, r) ↦
        let s = get_or ss x.0 closed in
        elim (emit x.1 s.buf st) [
          | none ↦ none
          | some st' ↦ elim s.rest [
            | [] ↦ merge_loop emit fuel r ss st'
            | l ∷ ls ↦
                merge_loop emit fuel (push (x.0, line_num l) r)
                  (put ss x.0 (record { buf = l; rest = ls })) st'
          ]
        ]
  ]

  -- The lines of the file "task<t>_<n>", from those of its blocks.
  unfoldable pub sort_nodes : ℕ → List (List Bytes) → Option (List Bytes)
  unfolding open_streams push_all merge_loop
  sort_nodes fuel blocks = do
    ss ← open_streams blocks
    merge_loop write_line fuel (push_all 0 ss empty) ss []

  -- The lines that go to `fp_out`, "<t>.csv", which is not closed. `memory` is what stands at the fresh array: `new bool[max_line]` sets
  -- nothing, and the loop does not test an index against `max_line`.
  unfoldable pub sort_file : ℕ → ℤ → List Bool → List (List Bytes) → Option (List Bytes)
  unfolding open_streams push_all merge_loop write_once
  sort_file fuel task memory nodes = do
    ss ← open_streams nodes
    done ← merge_loop (write_once task) fuel (push_all 0 ss empty) ss (memory, [])
    some done.1
