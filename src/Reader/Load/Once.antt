-- ===== src/Reader/Load/Once.antt =====
-- Which tasks `load` and the caller of `insr2clst` handle, and how often.
use distributed_task_dispath.Prelude.{
  some_inj, ℕ, zero, suc, ◌+◌, ◌≤◌, ◌<◌, Bool, true, false, ◌&&◌, List, [], ◌∷◌, some, ◌≡◌, refl,
  ap, sym, ◌∙◌, arith, sum, get_or, ltb, leb, ◌==◌, length, ==_iff, Bool-cases, inl, inr,
  if◌then◌else◌,
}
use distributed_task_dispath.ThreadPool.{ThreadPool, Reach}
use distributed_task_dispath.ThreadPool.Join.{busy, joined-all_done}
use distributed_task_dispath.Reader.Load.{ReadCsv, members_from, load_tasks}

-- 1 for the number `i`.
abbrev pub is_task : ℕ → ℕ → ℕ
is_task i j = if j == i then 1 else 0

-- The numbers from `from` on, `left` of them, whose flag is set, each once.
pub members_from-count :
    (flags : List Bool) (left from : ℕ)
    → from + left ≤ length flags
    → (tasks : List ℕ) × (members_from flags left from ≡ some tasks)
      × ((i : ℕ)
          → sum (is_task i) tasks
            ≡ (if leb from i && (ltb i (from + left) && get_or flags i false) then 1 else 0))
unfolding members_from
members_from-count flags zero from h = ([], refl, λ i. ground arith)
members_from-count flags (suc left) from h =
    let (tasks, run, count) = members_from-count flags left (suc from) (omega arith) in
    let inside : ltb from (length flags) ≡ true = ground (arith, h) in
    elim (Bool-cases (get_or flags from false)) [
      | inl set ↦ (
        from ∷ tasks,
        rw (inside, run, set, members_from) refl,
        λ i. elim (Bool-cases (from == i)) [
          | inl same ↦
              let here = rw ((==_iff from i).0 same) at set in ground (arith, count i, same, here)
          | inr other ↦ ground (arith, count i, other)
        ],
      )
      | inr clear ↦ (
        tasks,
        rw (inside, run, clear, members_from) refl,
        λ i. elim (Bool-cases (from == i)) [
          | inl same ↦
              let here = rw ((==_iff from i).0 same) at clear in ground (arith, count i, same, here)
          | inr other ↦ ground (arith, count i, other)
        ],
      )
    ]

-- Let the flags be as many as `load` reads at least, and let a pool of some threads get its tasks
-- and come to its end. Then each number below `loop_num` whose flag is set has been done exactly
-- once, and no other number.
pub load-each_once :
    {threads : ℕ} {pool : ThreadPool ℕ} (r : ReadCsv) (i : ℕ)
    → r.loop_num ≤ length r.is_member_of_task
    → Reach threads pool
    → 0 < threads
    → load_tasks r ≡ some pool.enqueued
    → sum busy pool.workers ≡ 0
    → sum (is_task i) pool.done
      ≡ (if ltb i r.loop_num && get_or r.is_member_of_task i false then 1 else 0)
unfolding load_tasks
load-each_once {pool = pool} r i room reach some_thread given ended =
    let (tasks, run, count) = members_from-count r.is_member_of_task r.loop_num 0 (omega arith) in
    let (stopped, order, same) = joined-all_done reach some_thread ended in
    let given_tasks = some_inj (sym given ∙ run) in
    same (is_task i) ∙ ap (sum (is_task i)) given_tasks ∙ ground (arith, count i)
