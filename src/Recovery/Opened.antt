-- ===== src/Recovery/Opened.antt =====
-- The files are open and the first line of each is in the queue: the state before the merge loop.
use distributed_task_dispath.Prelude.{
  sum, sum-append, ℕ, suc, ◌+◌, ◌≤◌, ◌<◌, Bool, true, false, ◌&&◌, List, [], ◌∷◌, ◌++◌, Option,
  some, ◌≡◌, refl, ap, ◌∙◌, arith, ltb, length, get_or, lt→ltb,
}
use distributed_task_dispath.Prelude.Int.{ℤ}
use distributed_task_dispath.Bytes.{Bytes}
use distributed_task_dispath.Recovery.{line_num, Stream, closed, open_streams, push_all, merge_loop}
use distributed_task_dispath.Recovery.Queue.{PriorityQueue, Entry}
use distributed_task_dispath.Recovery.Merge.{ascending, eqz_refl, lines, fits, misfit, at, weight}
use distributed_task_dispath.Recovery.Trace.{Inv, merge_loop-Trace, emit_all}

-- A file with a line, and whose lines ascend.
abbrev pub good : List Bytes → Bool
good [] = false
good (l ∷ ls) = ascending (l ∷ ls)

abbrev pub all_good : List (List Bytes) → Bool
all_good [] = true
all_good (f ∷ files) = good f && all_good files

abbrev pub joined : List (List Bytes) → List Bytes
joined [] = []
joined (f ∷ files) = f ++ joined files

abbrev opened : List (List Bytes) → List Stream
opened [] = []
opened ([] ∷ files) = opened files
opened ((l ∷ ls) ∷ files) = record { buf = l; rest = ls } ∷ opened files

open_streams_lem :
    (files : List (List Bytes)) → all_good files ≡ true → open_streams files ≡ some (opened files)
unfolding open_streams
open_streams_lem [] h = refl
open_streams_lem ([] ∷ files) h = absurd (ground arith)
open_streams_lem ((l ∷ ls) ∷ files) h =
    rw (open_streams_lem files (ground arith), open_streams) refl

abbrev first_entries : ℕ → List Stream → List Entry
first_entries i [] = []
first_entries i (s ∷ ss) = (i, line_num s.buf) ∷ first_entries (suc i) ss

all_ascending : List Stream → Bool
all_ascending [] = true
all_ascending (s ∷ ss) = ascending (lines s) && all_ascending ss

opened_ascending :
    (files : List (List Bytes)) → all_good files ≡ true → all_ascending (opened files) ≡ true
unfolding all_ascending
opened_ascending [] h = refl
opened_ascending ([] ∷ files) h = absurd (ground arith)
opened_ascending ((l ∷ ls) ∷ files) h =
    let rest = opened_ascending files (ground arith) in ground arith

opened-lines :
    (g : Bytes → ℕ) (files : List (List Bytes))
    → sum (λ s. sum g (lines s)) (opened files) ≡ sum g (joined files)
opened-lines g [] = refl
opened-lines g ([] ∷ files) = opened-lines g files
opened-lines g ((l ∷ ls) ∷ files) =
    omega (arith, sum-append g (l ∷ ls) (joined files), opened-lines g files)

at_most_once : (i j : ℕ) (ss : List Stream) → sum (at j) (first_entries i ss) ≤ 1
at_most_once i j ss = omega (arith, below_first i j ss, whole i j ss)
  where
    below_first : (i j : ℕ) (ss : List Stream) → j < i → sum (at j) (first_entries i ss) ≡ 0
    below_first i j [] h = refl
    below_first i j (s ∷ ss) h = ground (arith, below_first (suc i) j ss (omega arith))

    whole : (i j : ℕ) (ss : List Stream) → sum (at j) (first_entries i ss) ≤ 1
    whole i j [] = omega arith
    whole i j (s ∷ ss) = ground (arith, below_first (suc i) j ss, whole (suc i) j ss)

-- `tail` stands in `ss` from the index `i` on.
record From (ss : List Stream) (i : ℕ) (tail : List Stream) : Type 0 where
  agree : (k : ℕ) → get_or ss (i + k) closed ≡ get_or tail k closed
  long : i + length tail ≡ length ss

From-next :
    (ss : List Stream) (i : ℕ) (s : Stream) (tail : List Stream)
    → From ss i (s ∷ tail)
    → From ss (suc i) tail
From-next ss i s tail w = record {
  agree = λ k. ap (λ n. get_or ss n closed) (omega arith) ∙ w.agree (suc k);
  long = omega (arith, w.long);
}

From-head :
    (ss : List Stream) (i : ℕ) (s : Stream) (tail : List Stream)
    → From ss i (s ∷ tail)
    → get_or ss i closed ≡ s
From-head ss i s tail w = ap (λ n. get_or ss n closed) (omega arith) ∙ w.agree 0

From-start : (ss : List Stream) → From ss 0 ss
From-start ss = record {
  agree = λ k. ap (λ n. get_or ss n closed) (omega arith);
  long = omega arith;
}

entries_fit :
    (ss : List Stream) (i : ℕ) (tail : List Stream)
    → From ss i tail
    → all_ascending tail ≡ true
    → sum (misfit ss) (first_entries i tail) ≡ 0
unfolding all_ascending
entries_fit ss i [] w h = refl
entries_fit ss i (s ∷ tail) w h =
    let rest = entries_fit ss (suc i) tail (From-next ss i s tail w) (ground arith) in
    let here : ascending (lines s) ≡ true = ground arith in
    let in_range : ltb i (length ss) ≡ true = lt→ltb i (length ss) (omega (arith, w.long)) in
    let head : fits ss (i, line_num s.buf) ≡ true =
      rw (From-head ss i s tail w, in_range, eqz_refl (line_num s.buf), here) in
    ground (arith, head, rest)

entries_weight :
    (g : Bytes → ℕ) (ss : List Stream) (i : ℕ) (tail : List Stream)
    → From ss i tail
    → sum (weight ss g) (first_entries i tail) ≡ sum (λ s. sum g (lines s)) tail
entries_weight g ss i [] w = refl
entries_weight g ss i (s ∷ tail) w = omega (
  arith,
  ap (λ t. sum g (lines t)) (From-head ss i s tail w),
  entries_weight g ss (suc i) tail (From-next ss i s tail w),
)

module _ (pq : PriorityQueue) where
  open pq use {Queue, empty, push, items, items-empty, items-push}

  items-push_all :
      (f : Entry → ℕ) (i : ℕ) (ss : List Stream) (q : Queue)
      → sum f (items (push_all pq i ss q)) ≡ sum f (first_entries i ss) + sum f (items q)
  unfolding push_all
  items-push_all f i [] q = omega arith
  items-push_all f i (s ∷ ss) q = omega (
    arith,
    items-push_all f (suc i) ss (push (i, line_num s.buf) q),
    items-push (i, line_num s.buf) q f,
  )

  first_items :
      (f : Entry → ℕ) (ss : List Stream)
      → sum f (items (push_all pq 0 ss empty)) ≡ sum f (first_entries 0 ss)
  first_items f ss = omega (arith, items-push_all f 0 ss empty, ap (sum f) items-empty)

  first_Inv : (ss : List Stream) → all_ascending ss ≡ true → Inv pq (push_all pq 0 ss empty) ss
  first_Inv ss h = record {
    fit = first_items (misfit ss) ss ∙ entries_fit ss 0 ss (From-start ss) h;
    once = λ j. omega (arith, first_items (at j) ss, at_most_once 0 j ss);
  }

  first_weight :
      (g : Bytes → ℕ) (files : List (List Bytes))
      → sum (weight (opened files) g) (items (push_all pq 0 (opened files) empty))
        ≡ sum g (joined files)
  first_weight g files =
      first_items (weight (opened files) g) (opened files)
      ∙ entries_weight g (opened files) 0 (opened files) (From-start (opened files))
      ∙ opened-lines g files

  module _ {S : Type 0} (emit : ℤ → Bytes → S → Option S) (fuel : ℕ)
      (files : List (List Bytes)) where
    -- The lines in the order in which the merge loop handles them.
    pub record Order : Type 0 where
      pub streams : List Stream
      pub order : List Bytes
      pub opens : open_streams files ≡ some streams
      pub asc : ascending order ≡ true
      pub complete : (g : Bytes → ℕ) → sum g order ≡ sum g (joined files)
      pub run :
          (st : S)
          → merge_loop pq emit fuel (push_all pq 0 streams empty) streams st
            ≡ emit_all emit order st

    pub merge_order : all_good files ≡ true → sum (λ _. 1) (joined files) < fuel → Order
    merge_order h enough =
        let ss = opened files in
        let t =
          merge_loop-Trace pq emit fuel (push_all pq 0 ss empty) ss
            (first_Inv ss (opened_ascending files h))
            (omega (arith, first_weight (λ _. 1) files)) in
        record {
          streams = ss;
          order = t.trace;
          opens = open_streams_lem files h;
          asc = t.asc;
          complete = λ g. t.complete g ∙ first_weight g files;
          run = t.run;
        }
