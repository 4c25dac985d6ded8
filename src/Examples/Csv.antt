-- ===== src/Examples/Csv.antt =====
-- The theorems about the blocks in the database, applied: two blocks of one node and one of the others.
use distributed_task_dispath.Prelude.{
  sum, SameItems, true, false, List, [], ◌∷◌, ◌++◌, none, some, ◌≡◌, refl, inl, inr, arith,
  replicate, length-replicate, if◌then◌else◌, Bool-cases,
}
use distributed_task_dispath.Prelude.Int.{ℤ, pos}
use distributed_task_dispath.Bytes.{Bytes, codes}
use distributed_task_dispath.Bytes.Decimal.{to_string, to_string_int}
use distributed_task_dispath.Tendis.{Tendis}
use distributed_task_dispath.Recovery.{line_num}
use distributed_task_dispath.Recovery.Queue.{lez}
use distributed_task_dispath.Recovery.Merge.{ascending, below, below_mono}
use distributed_task_dispath.Recovery.Blocks.{
  Sorter, is_error, create_block, block_query, split_lines, split_from,
}
use distributed_task_dispath.Recovery.Blocks.Greatest.{all_lines, above}
use distributed_task_dispath.Recovery.Blocks.Merged.{create_block-merges}
use distributed_task_dispath.Recovery.Csv.{csv_recovery}
use distributed_task_dispath.Recovery.Csv.Overrun.{csv_recovery-leaves_line_flag}
use distributed_task_dispath.Examples.Service.{Nodes, lookup}
use distributed_task_dispath.Examples.Recovery.{queue, lez_other}

-- Insertion sort.
abbrev insert_line : Bytes → List Bytes → List Bytes
insert_line x [] = x ∷ []
insert_line x (y ∷ ys) =
    let rest = insert_line x ys in if lez (line_num x) (line_num y) then x ∷ y ∷ ys else y ∷ rest

abbrev sort_lines : List Bytes → List Bytes
sort_lines [] = []
sort_lines (x ∷ xs) = insert_line x (sort_lines xs)

insert_line-SameItems : (x : Bytes) (ys : List Bytes) → SameItems (insert_line x ys) (x ∷ ys)
insert_line-SameItems x [] g = refl
insert_line-SameItems x (y ∷ ys) g = elim (Bool-cases (lez (line_num x) (line_num y))) [
  | inl low ↦ rw low refl
  | inr high ↦ rw high (omega (arith, insert_line-SameItems x ys g))
]

insert_line-ascending :
    (x : Bytes) (ys : List Bytes) → ascending ys ≡ true → ascending (insert_line x ys) ≡ true
insert_line-ascending x [] h = refl
insert_line-ascending x (y ∷ ys) h = elim (Bool-cases (lez (line_num x) (line_num y))) [
  | inl low ↦
      let rest = below_mono (line_num x) (line_num y) ys low (ground (arith, h)) in
      rw low (ground (arith, low, rest, h))
  | inr high ↦
      let rest = insert_line-ascending x ys (ground (arith, h)) in
      let count = insert_line-SameItems x ys (below (line_num y)) in
      let turned = lez_other (line_num x) (line_num y) high in
      rw high (ground (arith, rest, count, turned, h))
]

pub sort_lines-SameItems : (ls : List Bytes) → SameItems (sort_lines ls) ls
sort_lines-SameItems [] g = refl
sort_lines-SameItems (x ∷ xs) g =
    omega (arith, insert_line-SameItems x (sort_lines xs) g, sort_lines-SameItems xs g)

pub sort_lines-ascending : (ls : List Bytes) → ascending (sort_lines ls) ≡ true
sort_lines-ascending [] = refl
sort_lines-ascending (x ∷ xs) = insert_line-ascending x (sort_lines xs) (sort_lines-ascending xs)

abbrev pub sorter : Sorter
sorter = record {
  sort = sort_lines;
  sort-ascending = sort_lines-ascending;
  sort-SameItems = sort_lines-SameItems;
}

-- The replies to the queries; there is no key for any other.
abbrev db : Tendis
db = record { Data = Nodes; command = λ cmd d. (some (lookup d cmd), d) }

abbrev line_1 : Bytes
line_1 = codes ",1,a" ++ 10 ∷ []

abbrev line_2 : Bytes
line_2 = codes ",2,b" ++ 10 ∷ []

abbrev stored : Nodes
stored =
    (codes "get task7_0_1", line_2 ++ line_1)
    ∷ (codes "get task7_0_2", line_1)
    ∷ (codes "get task7_1_1", line_1)
    ∷ (codes "get task7_2_1", line_1)
    ∷ (codes "get task7_3_1", line_1)
    ∷ (codes "get task7_4_1", line_1)
    ∷ []

abbrev blocks : List Bytes
blocks = (line_2 ++ line_1) ∷ line_1 ∷ []

create_block-merges_example :
    (max_line : ℤ) × (out : List Bytes) × (create_block sorter db (pos 7) (pos 0) queue 3 4 stored
      ≡ some ((max_line, out), stored))
    × (ascending out ≡ true)
    × SameItems out (all_lines blocks)
    × (is_error max_line ≡ false)
    × (sum (above max_line) out ≡ 0)
unfolding block_query split_lines split_from to_string_int to_string
create_block-merges_example =
    create_block-merges sorter db (pos 7) (pos 0) stored queue 3 4 blocks
      ((refl, refl, (refl, refl, refl))) (omega arith) (omega arith)

csv_recovery-leaves_line_flag_example :
    csv_recovery queue sorter db (pos 7) 3 8 (λ k. replicate k false) stored ≡ none
unfolding block_query split_lines split_from to_string_int to_string
csv_recovery-leaves_line_flag_example =
    csv_recovery-leaves_line_flag queue sorter db (pos 7) 3 8 stored (λ k. replicate k false)
      (blocks ∷ (line_1 ∷ []) ∷ (line_1 ∷ []) ∷ (line_1 ∷ []) ∷ (line_1 ∷ []) ∷ [])
      (λ k. length-replicate k false) refl
      (
        (refl, refl, (refl, refl, refl)),
        omega arith,
        omega arith,
        (
          (refl, refl, refl),
          omega arith,
          omega arith,
          (
            (refl, refl, refl),
            omega arith,
            omega arith,
            (
              (refl, refl, refl),
              omega arith,
              omega arith,
              ((refl, refl, refl), omega arith, omega arith, tt),
            ),
          ),
        ),
      )
      (omega arith)
