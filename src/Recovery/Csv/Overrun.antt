-- ===== src/Recovery/Csv/Overrun.antt =====
-- The largest line number, which `csv_recovery` passes as the number of elements, is used as an index.
use distributed_task_dispath.Prelude.{
  sum, sum-append, ℕ, suc, ◌<◌, Bool, true, List, [], ◌∷◌, ◌++◌, none, some, ◌≡◌, refl, ap, sym,
  ◌∙◌, ◌⊎◌, inl, inr, arith, length, subst, Bool-cases, ltb, All,
}
use distributed_task_dispath.Prelude.Int.{ℤ, pos}
use distributed_task_dispath.Bytes.{Bytes}
use distributed_task_dispath.Tendis.{Tendis}
use distributed_task_dispath.Recovery.Queue.{PriorityQueue}
use distributed_task_dispath.Recovery.Merge.{ascending}
use distributed_task_dispath.Recovery.Opened.{good, all_good, joined}
use distributed_task_dispath.Recovery.Once.{sort_file-leaves_line_flag}
use distributed_task_dispath.Recovery.Picked.{outside}
use distributed_task_dispath.Recovery.Blocks.{Sorter, max_of}
use distributed_task_dispath.Recovery.Blocks.Greatest.{all_lines}
use distributed_task_dispath.Recovery.Blocks.Merged.{Holds, create_block_lem, create_block-attains}
use distributed_task_dispath.Recovery.Csv.{
  Made, files_of, greatest_num, create_blocks, csv_recovery,
}

-- A node's number is the number of elements of an array that some line of its file is outside of.
Attained : Made → Type 0
Attained (n, file) = (k : ℕ) × (n ≡ pos k) × (0 < sum (outside k) file)

max_of-cases : (a b : ℕ) → (max_of (pos a) (pos b) ≡ pos a) ⊎ (max_of (pos a) (pos b) ≡ pos b)
max_of-cases a b = elim (Bool-cases (ltb a b)) [
  | inl more ↦ inr (rw more refl)
  | inr less ↦ inl (rw less refl)
]

greatest_num-Attained :
    (a : ℕ) (made : List Made)
    → All Attained made
    → (k : ℕ) × (greatest_num (pos a) made ≡ pos k)
      × ((a ≡ k) ⊎ (0 < sum (outside k) (joined (files_of made))))
unfolding Attained
greatest_num-Attained a [] h = (a, refl, inl refl)
greatest_num-Attained a ((n, file) ∷ made) ((b, e, some_line), h) = elim (max_of-cases a b) [
  | inl keeps ↦
      let (k, g, rest) = greatest_num-Attained a made h in
      (
        k,
        rw (e, keeps) g,
        elim rest [
          | inl same ↦ inl same
          | inr later ↦
              inr (omega (arith, later, sum-append (outside k) file (joined (files_of made))))
        ],
      )
  | inr takes ↦
      let (k, g, rest) = greatest_num-Attained b made h in
      (
        k,
        rw (e, takes) g,
        elim rest [
          | inl same ↦ inr (
              omega (
                arith,
                ap (λ m. sum (outside m) file) same,
                some_line,
                sum-append (outside k) file (joined (files_of made)),
              ))
          | inr later ↦
              inr (omega (arith, later, sum-append (outside k) file (joined (files_of made))))
        ],
      )
]

good_of :
    (file : List Bytes) (k : ℕ)
    → ascending file ≡ true
    → 0 < sum (outside k) file
    → good file ≡ true
good_of [] k asc h = absurd (omega arith)
good_of (l ∷ ls) k asc h = asc

-- The lines of all blocks of all nodes.
abbrev pub all_blocks : List (List Bytes) → List Bytes
all_blocks [] = []
all_blocks (blocks ∷ nodes) = all_lines blocks ++ all_blocks nodes

module _ (pq : PriorityQueue) (sorter : Sorter) (db : Tendis) (task : ℤ) (fuel merge_fuel : ℕ)
    (d : db.Data) where
  -- The database holds the blocks of the nodes from one on, at least one block of each, and fewer
  -- than the fuel.
  abbrev pub AllHold : ℕ → List (List Bytes) → Type 0
  AllHold node [] = Unit
  AllHold node (blocks ∷ nodes) =
      Holds sorter db task (pos node) d 1 blocks
      × (0 < length blocks)
      × (length blocks < fuel)
      × AllHold (suc node) nodes

  create_blocks_lem :
      (node : ℕ) (nodes : List (List Bytes))
      → AllHold node nodes
      → sum (λ _. 1) (all_blocks nodes) < merge_fuel
      → (made : List Made) × (create_blocks pq sorter db task fuel merge_fuel (length nodes) node d
          ≡ some (some made, d))
        × All Attained made
        × (all_good (files_of made) ≡ true)
        × ((g : Bytes → ℕ) → sum g (joined (files_of made)) ≡ sum g (all_blocks nodes))
        × (length made ≡ length nodes)
  unfolding create_blocks Attained
  create_blocks_lem node [] h enough = ([], refl, tt, refl, λ g. refl, refl)
  create_blocks_lem node (blocks ∷ nodes) (holds, some_block, short, h) enough =
      let lines = sum-append (λ _. 1) (all_lines blocks) (all_blocks nodes) in
      let (top, out, run, asc, same, fine, over, files_good, is_top) =
        create_block_lem sorter db task (pos node) d pq fuel merge_fuel blocks holds short
          (omega (arith, lines)) in
      let reached =
        create_block-attains sorter db task (pos node) d blocks top out files_good is_top same
          some_block in
      let (made, go, attained, rest_good, sums, count) =
        create_blocks_lem (suc node) nodes h (omega (arith, lines)) in
      (
        (top, out) ∷ made,
        rw (run, fine, go, create_blocks) refl,
        (reached, attained),
        (let here = good_of out (reached.0) asc (reached.2) in ground (arith, here, rest_good)),
        λ g. omega (
          arith,
          sum-append g out (joined (files_of made)),
          sum-append g (all_lines blocks) (all_blocks nodes),
          same g,
          sums g,
        ),
        ap suc count,
      )

  csv_recovery_made :
      (fresh : ℕ → List Bool) (made : List Made)
      → ((k : ℕ) → length (fresh k) ≡ k)
      → create_blocks pq sorter db task fuel merge_fuel 5 0 d ≡ some (some made, d)
      → All Attained made
      → all_good (files_of made) ≡ true
      → sum (λ _. 1) (joined (files_of made)) < merge_fuel
      → csv_recovery pq sorter db task fuel merge_fuel fresh d ≡ none
  unfolding csv_recovery Attained
  csv_recovery_made fresh [] room run h fine enough = rw (run, csv_recovery) refl
  csv_recovery_made fresh ((n, file) ∷ made) room run ((b, e, some_line), h) fine enough =
      let (k, g, found) = greatest_num-Attained b made h in
      let files = file ∷ files_of made in
      let split = sum-append (outside k) file (joined (files_of made)) in
      let beyond : 0 < sum (outside k) (joined files) = elim found [
        | inl same ↦ omega (arith, ap (λ m. sum (outside m) file) same, some_line, split)
        | inr later ↦ omega (arith, later, split)
      ] in
      let leaves =
        sort_file-leaves_line_flag pq merge_fuel task (fresh k) files fine enough
          (subst (λ m. 0 < sum (outside m) (joined files)) (sym (room k)) beyond) in
      rw (run, ap (λ m. greatest_num m made) e ∙ g, leaves, csv_recovery) refl

  -- Let the database hold blocks of all five nodes that `create_block` can read, at least one of each;
  -- let the fuel exceed the number of blocks of each node, and that of all lines; and let a new
  -- array have as many elements as it is made with. Then `csv_recovery` always accesses the array
  -- `line_flag` outside its bounds, which is undefined behaviour.
  pub csv_recovery-leaves_line_flag :
      (fresh : ℕ → List Bool) (nodes : List (List Bytes))
      → ((k : ℕ) → length (fresh k) ≡ k)
      → length nodes ≡ 5
      → AllHold 0 nodes
      → sum (λ _. 1) (all_blocks nodes) < merge_fuel
      → csv_recovery pq sorter db task fuel merge_fuel fresh d ≡ none
  csv_recovery-leaves_line_flag fresh nodes room five h enough =
      let (made, go, attained, fine, sums, count) = create_blocks_lem 0 nodes h enough in
      csv_recovery_made fresh made room
        (subst (λ n. create_blocks pq sorter db task fuel merge_fuel n 0 d ≡ some (some made, d))
          five go)
        attained fine (omega (arith, sums (λ _. 1)))
