-- ===== src/Reader/Restored.antt =====
-- What `insert_to_redis` puts into a database that keeps what is set is what `create_block` of
-- _file_recovery/re_file.cpp reads.
pub mod Lines
pub mod Keys
use distributed_task_dispath.Prelude.{
  ℕ, zero, suc, ◌+◌, ◌≤◌, ◌<◌, true, false, ◌&&◌, List, [], ◌∷◌, ◌++◌, Option, none, some, ◌≡◌, ◌≢◌,
  refl, ap, sym, ◌∙◌, inl, inr, arith, All, all, length, length-append, sum, SameItems, append-nil,
  if◌then◌else◌, subst,
}
use distributed_task_dispath.Prelude.Int.{ℤ, pos}
use distributed_task_dispath.Bytes.{Bytes, codes, bytes_eq}
use distributed_task_dispath.Bytes.Equality.{bytes_eq_refl, bytes_eq_ne}
use distributed_task_dispath.Tendis.{Tendis, redis_insert}
use distributed_task_dispath.Tendis.KeyValue.{KeyValue, IsArgument}
use distributed_task_dispath.Recovery.Queue.{PriorityQueue}
use distributed_task_dispath.Recovery.Merge.{ascending}
use distributed_task_dispath.Recovery.Opened.{joined}
use distributed_task_dispath.Recovery.Blocks.{Sorter, block_query, max_block_size, create_block}
use distributed_task_dispath.Recovery.Blocks.Greatest.{all_lines, usable}
use distributed_task_dispath.Recovery.Blocks.Merged.{Holds, create_block-merges}
use distributed_task_dispath.Reader.{set_block, has_id, insert_to_redis}
use distributed_task_dispath.Reader.Stored.{
  text, lines_of, Filled, store_blocks, insert_to_redis-stores,
}
use distributed_task_dispath.Reader.Restored.Lines.{
  IsLine, split_lines-text, text-usable, text-IsArgument,
}
use distributed_task_dispath.Reader.Restored.Keys.{
  block_key, set_block-key, block_query-key, block_key_ne, block_key-IsArgument,
}

-- The texts of the blocks that have a line.
abbrev stored : List (List Bytes) → List Bytes
stored [] = []
stored ([] ∷ bs) = stored bs
stored ((l ∷ ls) ∷ bs) = text (l ∷ ls) ∷ stored bs

All-left : (xs ys : List Bytes) → All IsLine (xs ++ ys) → All IsLine xs
All-left [] ys h = tt
All-left (x ∷ xs) ys (p, h) = (p, All-left xs ys h)

All-right : (xs ys : List Bytes) → All IsLine (xs ++ ys) → All IsLine ys
All-right [] ys h = h
All-right (x ∷ xs) ys (p, h) = All-right xs ys h

stored-all_lines :
    (bs : List (List Bytes)) → All IsLine (joined bs) → all_lines (stored bs) ≡ joined bs
stored-all_lines [] h = refl
stored-all_lines ([] ∷ bs) h = stored-all_lines bs h
stored-all_lines ((l ∷ ls) ∷ bs) h =
    rw (split_lines-text (l ∷ ls) (All-left (l ∷ ls) (joined bs) h))
      (ap (◌++◌ (l ∷ ls)) (stored-all_lines bs (All-right (l ∷ ls) (joined bs) h)))

length-stored : (bs : List (List Bytes)) → length (stored bs) ≤ length (joined bs)
length-stored [] = omega arith
length-stored ([] ∷ bs) = length-stored bs
length-stored ((l ∷ ls) ∷ bs) = omega (arith, length-stored bs, length-append (l ∷ ls) (joined bs))

length-sum : (ls : List Bytes) → sum (λ l. 1) ls ≡ length ls
length-sum [] = refl
length-sum (l ∷ ls) = omega (arith, length-sum ls)

module _ {db : Tendis} (kv : KeyValue db) (task node : ℕ) where
  open kv use {value, get_lem, value-set, set_nothing}

  abbrev key : ℕ → Bytes
  key = block_key task node

  abbrev set_one : ℕ → List Bytes → db.Data → db.Data
  set_one i b d = redis_insert db (set_block (pos task) (pos node) i (text b)) d

  set_one_empty : (i : ℕ) (d : db.Data) (q : Bytes) → value (set_one i [] d) q ≡ value d q
  unfolding redis_insert
  set_one_empty i d q =
      ap (λ c. value (db.command c d).1 q)
        (set_block-key task node i [] ∙ append-nil (codes "set " ++ key i ++ codes " "))
      ∙ set_nothing d (key i) q (block_key-IsArgument task node i)

  set_one_lem :
      (i : ℕ) (l : Bytes) (ls : List Bytes) (d : db.Data) (q : Bytes)
      → All IsLine (l ∷ ls)
      → value (set_one i (l ∷ ls) d) q
        ≡ (if bytes_eq (key i) q then some (text (l ∷ ls)) else value d q)
  unfolding redis_insert
  set_one_lem i l ls d q h =
      ap (λ c. value (db.command c d).1 q) (set_block-key task node i (text (l ∷ ls)))
      ∙ value-set d (key i) (text (l ∷ ls)) q (block_key-IsArgument task node i)
          (text-IsArgument l ls h)

  -- A block leaves the texts under the other keys alone.
  set_one_other :
      (i j : ℕ) (b : List Bytes) (d : db.Data)
      → i ≢ j
      → All IsLine b
      → value (set_one i b d) (key j) ≡ value d (key j)
  set_one_other i j [] d ne h = set_one_empty i d (key j)
  set_one_other i j (l ∷ ls) d ne h =
      set_one_lem i l ls d (key j) h
      ∙ rw (bytes_eq_ne (key i) (key j) (block_key_ne task node i j ne)) refl

  abbrev after_all : ℕ → ℕ → List (List Bytes) → db.Data → db.Data
  after_all n = store_blocks db (pos node) n (pos task)

  -- Later blocks leave the text under an earlier key alone.
  store_blocks_earlier :
      (n i j : ℕ) (bs : List (List Bytes)) (d : db.Data)
      → j < i
      → All IsLine (joined bs)
      → value (after_all n i bs d) (key j) ≡ value d (key j)
  store_blocks_earlier n i j [] d h lines = refl
  store_blocks_earlier n i j (b ∷ bs) d h lines =
      store_blocks_earlier n (suc i) j bs (set_one i b d) (omega arith)
        (All-right b (joined bs) lines)
      ∙ set_one_other i j b d (omega arith) (All-left b (joined bs) lines)

  abbrev Free : ℕ → db.Data → Type 0
  Free i d = (j : ℕ) → i ≤ j → value d (key j) ≡ none

  asked :
      (i : ℕ) (d : db.Data) (o : Option Bytes)
      → value d (key i) ≡ o
      → db.command (block_query (pos task) (pos node) i) d ≡ (some o, d)
  asked i d o e =
      ap (λ c. db.command c d) (block_query-key task node i)
      ∙ get_lem d (key i) (block_key-IsArgument task node i)
      ∙ ap (λ r. (some r, d)) e

  -- The block of some lines under its key, with later blocks behind it.
  kept :
      (n i : ℕ) (l : Bytes) (ls : List Bytes) (bs : List (List Bytes)) (d : db.Data)
      → All IsLine (joined ((l ∷ ls) ∷ bs))
      → value (after_all n (suc i) bs (set_one i (l ∷ ls) d)) (key i) ≡ some (text (l ∷ ls))
  kept n i l ls bs d lines =
      store_blocks_earlier n (suc i) i bs (set_one i (l ∷ ls) d) (omega arith)
        (All-right (l ∷ ls) (joined bs) lines)
      ∙ set_one_lem i l ls d (key i) (All-left (l ∷ ls) (joined bs) lines)
      ∙ rw (bytes_eq_refl (key i)) refl

  store_blocks-Holds :
      (sorter : Sorter) (n i : ℕ) (bs : List (List Bytes)) (d : db.Data)
      → 0 < n
      → n ≤ max_block_size
      → Filled n bs
      → All IsLine (joined bs)
      → Free i d
      → Holds sorter db (pos task) (pos node) (after_all n i bs d) i (stored bs)
  store_blocks-Holds sorter n i [] d some_line short filled lines free = absurd filled
  store_blocks-Holds sorter n i ([] ∷ []) d some_line short filled lines free =
      asked i (set_one i [] d) none (set_one_empty i d (key i) ∙ free i (omega arith))
  store_blocks-Holds sorter n i ((l ∷ ls) ∷ []) d some_line short filled lines free = (
    asked i (set_one i (l ∷ ls) d) (some (text (l ∷ ls))) (kept n i l ls [] d lines),
    text-usable l ls (All-left (l ∷ ls) [] lines) (omega (arith, filled)),
    asked (suc i) (set_one i (l ∷ ls) d) none (
        set_one_other i (suc i) (l ∷ ls) d (omega arith) (All-left (l ∷ ls) [] lines)
        ∙ free (suc i) (omega arith)),
  )
  store_blocks-Holds sorter n i ([] ∷ c ∷ bs) d some_line short (full, filled) lines free =
      absurd (omega (arith, full))
  store_blocks-Holds sorter n i ((l ∷ ls) ∷ c ∷ bs) d some_line short (full, filled) lines free = (
    asked i _ (some (text (l ∷ ls))) (kept n i l ls (c ∷ bs) d lines),
    text-usable l ls (All-left (l ∷ ls) (joined (c ∷ bs)) lines) (omega (arith, full)),
    store_blocks-Holds sorter n (suc i) (c ∷ bs) (set_one i (l ∷ ls) d) some_line short filled
        (All-right (l ∷ ls) (joined (c ∷ bs)) lines)
        (λ j h.
          set_one_other i j (l ∷ ls) d (omega arith) (All-left (l ∷ ls) (joined (c ∷ bs)) lines)
          ∙ free j (omega arith)),
  )

  -- Let the database keep what is set, and hold no block of the task and the node yet. Let each line
  -- of the reader's file have a number before a comma, and the lines of the task be such that they
  -- can be stored; and let a block have room for a line at least and for no more than create_block
  -- takes. Then what insert_to_redis stores is what create_block reads: with more fuel than there are
  -- lines it returns, and the node's file has the lines of the task without its number, each as often
  -- as the reader's file, in ascending order.
  pub insert_to_redis-create_block :
      (pq : PriorityQueue) (sorter : Sorter) (n fuel merge_fuel : ℕ) (lines : List Bytes)
      (d : db.Data)
      → 0 < n
      → n ≤ max_block_size
      → all has_id lines ≡ true
      → All IsLine (lines_of (pos task) lines)
      → ((j : ℕ) → value d (block_key task node j) ≡ none)
      → length (lines_of (pos task) lines) < fuel
      → length (lines_of (pos task) lines) < merge_fuel
      → (d' : db.Data) × (max_line : ℤ) × (out : List Bytes) × (insert_to_redis db
            (pos node)
            n
            (pos task)
            lines
            d
          ≡ some d')
        × (create_block sorter db (pos task) (pos node) pq fuel merge_fuel d'
            ≡ some ((max_line, out), d'))
        × (ascending out ≡ true)
        × SameItems out (lines_of (pos task) lines)
  insert_to_redis-create_block pq sorter n fuel merge_fuel lines d some_line short ids proper free
        room room2 =
      let (blocks, run, whole, filled) =
        insert_to_redis-stores db (pos node) n (pos task) lines d some_line ids in
      let ours = subst (λ ls. All IsLine ls) (sym whole) proper in
      let same = stored-all_lines blocks ours ∙ whole in
      let held =
        store_blocks-Holds sorter n 1 blocks d some_line short filled ours (λ j h. free j) in
      let (max_line, out, made, asc, items, fine, top) =
        create_block-merges sorter db (pos task) (pos node) (after_all n 1 blocks d) pq fuel
          merge_fuel (stored blocks) held
          (omega (arith, length-stored blocks, ap length whole, room))
          (omega (arith, ap (sum (λ l. 1)) same, length-sum (lines_of (pos task) lines), room2)) in
      (after_all n 1 blocks d, max_line, out, run, made, asc, λ g. items g ∙ ap (sum g) same)
