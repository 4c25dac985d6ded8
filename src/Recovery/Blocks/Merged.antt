-- ===== src/Recovery/Blocks/Merged.antt =====
-- What `create_block` returns and writes when the database holds the blocks.
use distributed_task_dispath.Prelude.{
  sum, SameItems, ℕ, zero, suc, ◌-◌, ◌<◌, true, false, List, [], ◌∷◌, none, some, ◌≡◌, refl, ap,
  sym, ◌∙◌, arith, length, subst, ◌>>=◌, inl, inr,
}
use distributed_task_dispath.Prelude.Int.{ℤ, pos}
use distributed_task_dispath.Bytes.{Bytes, codes, bytes_eq}
use distributed_task_dispath.Tendis.{Tendis, redis_select, shown_reply}
use distributed_task_dispath.Recovery.{line_num}
use distributed_task_dispath.Recovery.Queue.{PriorityQueue}
use distributed_task_dispath.Recovery.Merge.{ascending}
use distributed_task_dispath.Recovery.Opened.{good, all_good, joined}
use distributed_task_dispath.Recovery.Picked.{outside}
use distributed_task_dispath.Recovery.Output.{sort_nodes-merges}
use distributed_task_dispath.Recovery.Blocks.{
  Sorter, block_query, split_lines, have_room, last_of, max_of, is_error, sort_blocks, create_block,
}
use distributed_task_dispath.Recovery.Blocks.Greatest.{
  all_lines, usable, sort-has_line, joined-sorted_files, greatest-pos, greatest-above,
  greatest-attained, outside_zero, some_good, sorted_files, above, greatest,
}

module _ (sorter : Sorter) where
  module _ (db : Tendis) (task node : ℤ) (d : db.Data) where
    -- The database answers with the blocks from one number on, has no key behind them, and is not
    -- changed by the reads.
    abbrev pub Holds : ℕ → List Bytes → Type 0
    Holds block_id [] = db.command (block_query task node block_id) d ≡ (some none, d)
    Holds block_id (block ∷ blocks) =
        (db.command (block_query task node block_id) d ≡ (some (some block), d))
        × (usable block ≡ true)
        × Holds (suc block_id) blocks

    sort_blocks_lem :
        (fuel block_id : ℕ) (m : ℤ) (blocks : List Bytes)
        → Holds block_id blocks
        → length blocks < fuel
        → (count : ℤ) × (sort_blocks sorter db task node fuel block_id m d
            ≡ some ((count, greatest sorter m blocks, sorted_files sorter blocks), d))
          × (all_good (sorted_files sorter blocks) ≡ true)
    unfolding sort_blocks redis_select
    sort_blocks_lem zero block_id m blocks h enough = absurd (omega arith)
    sort_blocks_lem (suc fuel) block_id m [] h enough = (
      pos (block_id - 1),
      rw (ap (λ p. p.0) h, ap (λ p. p.1) h, sort_blocks, redis_select) refl,
      refl,
    )
    sort_blocks_lem (suc fuel) block_id m (b ∷ bs) (e, ok, h) enough =
        let (l, ls, s) = sort-has_line sorter (split_lines b) (ground (arith, ok)) in
        let (count, run, good) =
          sort_blocks_lem fuel (suc block_id) (max_of m (line_num (last_of l ls))) bs h
            (omega arith) in
        let some_text : bytes_eq b [] ≡ false = ground (arith, ok) in
        let no_error : bytes_eq b (codes "error") ≡ false = ground (arith, ok) in
        let room : have_room (split_lines b) ≡ true = ground (arith, ok) in
        let asc = sorter.sort-ascending (split_lines b) in
        (
          count,
          (let e0 = ap (λ p. shown_reply p.0) e in
              let e1 = ap (λ p. p.1) e in
              rw (e0, some_text, e0, no_error, e0, room, e0, s, e1, run, sort_blocks, redis_select)
                refl),
          rw s (ground (arith, rw s at asc, good)),
        )

    pub create_block_lem :
        (pq : PriorityQueue) (fuel merge_fuel : ℕ) (blocks : List Bytes)
        → Holds 1 blocks
        → length blocks < fuel
        → sum (λ _. 1) (all_lines blocks) < merge_fuel
        → (max_line : ℤ) × (out : List Bytes) × (create_block sorter db task node pq fuel merge_fuel
              d
            ≡ some ((max_line, out), d))
          × (ascending out ≡ true)
          × SameItems out (all_lines blocks)
          × (is_error max_line ≡ false)
          × (sum (above max_line) out ≡ 0)
          × (all_good (sorted_files sorter blocks) ≡ true)
          × (max_line ≡ greatest sorter (pos 0) blocks)
    unfolding create_block
    create_block_lem pq fuel merge_fuel blocks h enough lines_enough =
        let (count, run, good) = sort_blocks_lem fuel 1 (pos 0) blocks h enough in
        let files = sorted_files sorter blocks in
        let (out, (merged, (asc, same))) =
          sort_nodes-merges pq merge_fuel files good
            (omega (arith, joined-sorted_files sorter (λ _. 1) blocks)) in
        let top = greatest sorter (pos 0) blocks in
        (
          top,
          out,
          rw (run, greatest-pos sorter 0 blocks, merged, ◌>>=◌) refl,
          asc,
          λ g. same g ∙ joined-sorted_files sorter g blocks,
          greatest-pos sorter 0 blocks,
          same (above top) ∙ (greatest-above sorter (pos 0) blocks).1,
          good,
          refl,
        )

    -- Let the database hold the blocks of the node from number 1 on: texts other than "error" whose
    -- lines fit the buffers, at least one in each; and let the fuel exceed the number of blocks, and
    -- that of lines. Then `create_block` returns and writes the node's file: its lines ascend by
    -- number and are those of the blocks, each as often as they have it. What it returns is no error,
    -- and no line has a greater number.
    pub create_block-merges :
        (pq : PriorityQueue) (fuel merge_fuel : ℕ) (blocks : List Bytes)
        → Holds 1 blocks
        → length blocks < fuel
        → sum (λ _. 1) (all_lines blocks) < merge_fuel
        → (max_line : ℤ) × (out : List Bytes) × (create_block sorter db task node pq fuel merge_fuel
              d
            ≡ some ((max_line, out), d))
          × (ascending out ≡ true)
          × SameItems out (all_lines blocks)
          × (is_error max_line ≡ false)
          × (sum (above max_line) out ≡ 0)
    create_block-merges pq fuel merge_fuel blocks h enough lines_enough =
        let (top, out, run, asc, same, fine, over, good, greatest_one) =
          create_block_lem pq fuel merge_fuel blocks h enough lines_enough in
        (top, out, run, asc, same, fine, over)

    -- If there is a block, then what is returned is no negative number, and some line's number is no
    -- index below it.
    pub create_block-attains :
        (blocks : List Bytes) (max_line : ℤ) (out : List Bytes)
        → all_good (sorted_files sorter blocks) ≡ true
        → max_line ≡ greatest sorter (pos 0) blocks
        → SameItems out (all_lines blocks)
        → 0 < length blocks
        → (k : ℕ) × (max_line ≡ pos k) × (0 < sum (outside k) out)
    create_block-attains [] max_line out fine e same some_block = absurd (omega arith)
    create_block-attains (b ∷ bs) max_line out fine e same some_block =
        let (k, g, found) = greatest-attained sorter 0 (b ∷ bs) fine in
        let moved = λ (f : Bytes → ℕ). same f ∙ sym (joined-sorted_files sorter f (b ∷ bs)) in
        (
          k,
          e ∙ g,
          elim found [
            | inr there ↦ omega (arith, there, moved (outside k))
            | inl start ↦
                let some_line =
                  some_good (sorter.sort (split_lines b)) (joined (sorted_files sorter bs))
                    (ground (arith, fine)) in
                subst (λ m. 0 < sum (outside m) out) start
                  (omega (arith, outside_zero out, moved (λ _. 1), some_line))
          ],
        )
