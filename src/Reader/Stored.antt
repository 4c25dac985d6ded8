-- ===== src/Reader/Stored.antt =====
-- What `insert_to_redis` stores: the lines of the task, in blocks of the given size.
use distributed_task_dispath.Prelude.{
  ℕ, suc, ◌≤◌, ◌<◌, true, List, [], ◌∷◌, ◌++◌, Option, some, ◌≡◌, refl, ap, sym, ◌∙◌, inl, inr,
  arith, ◌==◌, if◌then◌else◌, length, drop, all, Bool-cases, append_assoc, append-nil,
  length-append, ==_iff,
}
use distributed_task_dispath.Prelude.Int.{ℤ}
use distributed_task_dispath.Bytes.{Bytes}
use distributed_task_dispath.Bytes.Decimal.{to_string_int}
use distributed_task_dispath.Tendis.{Tendis, redis_insert}
use distributed_task_dispath.Recovery.Opened.{joined}
use distributed_task_dispath.Reader.{
  same_int, has_id, line_id, set_block, insert_lines, insert_to_redis,
}

abbrev pub text : List Bytes → Bytes
text [] = []
text (l ∷ ls) = l ++ text ls

-- The lines with the task's number, without it.
abbrev pub lines_of : ℤ → List Bytes → List Bytes
lines_of task [] = []
lines_of task (line ∷ lines) =
    let rest = lines_of task lines in
    if same_int task (line_id line) then drop (length (to_string_int task)) line ∷ rest else rest

-- There is a block, the last has at most `n` lines, and each of the others has `n`.
abbrev pub Filled : ℕ → List (List Bytes) → Type 0
Filled n [] = ⊥
Filled n (b ∷ []) = length b ≤ n
Filled n (b ∷ c ∷ bs) = (length b ≡ n) × Filled n (c ∷ bs)

text-snoc : (ls : List Bytes) (l : Bytes) → text (ls ++ l ∷ []) ≡ text ls ++ l
text-snoc [] l = append-nil l
text-snoc (m ∷ ls) l = ap (◌++◌ m) (text-snoc ls l) ∙ sym (append_assoc m (text ls) l)

Filled-cons :
    (n : ℕ) (b : List Bytes) (bs : List (List Bytes))
    → length b ≡ n
    → Filled n bs
    → Filled n (b ∷ bs)
Filled-cons n b [] e h = absurd h
Filled-cons n b (c ∷ bs) e h = (e, h)

module _ (db : Tendis) (node : ℤ) (n : ℕ) (task : ℤ) where
  -- The blocks are stored under numbers that count up.
  abbrev pub store_blocks : ℕ → List (List Bytes) → db.Data → db.Data
  store_blocks block_idx [] d = d
  store_blocks block_idx (b ∷ bs) d =
      store_blocks (suc block_idx) bs (redis_insert db (set_block task node block_idx (text b)) d)

  record Cut (now : List Bytes) (lines : List Bytes) (block_idx : ℕ) (d : db.Data)
      (result : Option db.Data) : Type 0 where
    blocks : List (List Bytes)
    whole : joined blocks ≡ now ++ lines_of task lines
    filled : Filled n blocks
    run : result ≡ some (store_blocks block_idx blocks d)

  -- One line, in a block that is not full.
  one_line :
      (line : Bytes) (lines now : List Bytes) (block_idx : ℕ) (d : db.Data)
      → length now < n
      → ((now' : List Bytes)
          → length now' ≤ n
          → Cut now' lines block_idx d
              (insert_lines db node n task lines (text now') (length now') block_idx d))
      → (let ours = same_int task (line_id line) in
          Cut now (line ∷ lines) block_idx d (
            insert_lines db node n task lines
              (if ours then text now ++ drop (length (to_string_int task)) line else text now)
              (if ours then suc (length now) else length now)
              block_idx
              d))
  one_line line lines now block_idx d room ih = elim (Bool-cases (same_int task (line_id line))) [
    | inr other ↦
        let c = ih now (omega arith) in
        record {
          blocks = c.blocks;
          whole = rw other c.whole;
          filled = c.filled;
          run = rw other c.run;
        }
    | inl ours ↦
        let cut = drop (length (to_string_int task)) line in
        let longer = length-append now (cut ∷ []) in
        let c = ih (now ++ cut ∷ []) (omega (arith, longer)) in
        let size : length (now ++ cut ∷ []) ≡ suc (length now) = omega (arith, longer) in
        record {
          blocks = c.blocks;
          whole = rw ours (c.whole ∙ append_assoc now (cut ∷ []) (lines_of task lines));
          filled = c.filled;
          run = rw ours (rw (text-snoc now cut, size) at c.run);
        }
  ]

  insert_lines_lem :
      (lines now : List Bytes) (block_idx : ℕ) (d : db.Data)
      → 0 < n
      → all has_id lines ≡ true
      → length now ≤ n
      → Cut now lines block_idx d
          (insert_lines db node n task lines (text now) (length now) block_idx d)
  unfolding insert_lines
  insert_lines_lem [] now block_idx d size h short = record {
    blocks = now ∷ [];
    whole = refl;
    filled = short;
    run = refl;
  }
  insert_lines_lem (line ∷ lines) now block_idx d size h short =
      elim (Bool-cases (length now == n)) [
        | inr room ↦
            let c =
              one_line line lines now block_idx d (ground (arith, short, room))
                (λ now' short'. insert_lines_lem lines now' block_idx d size others short') in
            record {
              blocks = c.blocks;
              whole = c.whole;
              filled = c.filled;
              run = rw (here, room) c.run;
            }
        | inl full ↦
            let d1 = redis_insert db (set_block task node block_idx (text now)) d in
            let c =
              one_line line lines [] (suc block_idx) d1 size (λ now' short'.
                insert_lines_lem lines now' (suc block_idx) d1 size others short') in
            record {
              blocks = now ∷ c.blocks;
              whole = ap (◌++◌ now) c.whole;
              filled = Filled-cons n now c.blocks ((==_iff (length now) n).0 full) c.filled;
              run = rw (here, full) c.run;
            }
      ]
    where
      here : has_id line ≡ true
      here = ground (arith, h)

      others : all has_id lines ≡ true
      others = ground (arith, h)

  -- If every line of the file has a number of at most two bytes before a comma, and a block holds at
  -- least one line, then `insert_to_redis` returns, and has stored blocks under the numbers from 1 on:
  -- joined they are the lines of the task, in order and without its number, and all but the last
  -- have exactly as many lines as a block holds.
  pub insert_to_redis-stores :
      (lines : List Bytes) (d : db.Data)
      → 0 < n
      → all has_id lines ≡ true
      → (blocks : List (List Bytes)) × (insert_to_redis db node n task lines d
          ≡ some (store_blocks 1 blocks d))
        × (joined blocks ≡ lines_of task lines)
        × Filled n blocks
  unfolding insert_to_redis
  insert_to_redis-stores lines d size h =
      let c = insert_lines_lem lines [] 1 d size h (omega arith) in
      (c.blocks, c.run, c.whole, c.filled)
