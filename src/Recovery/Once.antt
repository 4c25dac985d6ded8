-- ===== src/Recovery/Once.antt =====
-- What `sort_file` of _file_recovery/re_file.cpp writes, and when it leaves its array.
use distributed_task_dispath.Prelude.{
  sum, ℕ, ◌≤◌, ◌<◌, Bool, true, false, List, [], ◌∷◌, ◌++◌, none, some, ◌≡◌, refl, ◌∙◌, ap, sym,
  inl, inr, arith, ◌==◌, ltb, if◌then◌else◌, length, get_or, Bool-cases, lt→ltb, append_assoc,
  append-nil,
}
use distributed_task_dispath.Prelude.Int.{ℤ, pos}
use distributed_task_dispath.Bytes.{Bytes}
use distributed_task_dispath.Bytes.Decimal.{to_string_int}
use distributed_task_dispath.Recovery.{line_num, mark, sort_file, write_once}
use distributed_task_dispath.Recovery.Queue.{PriorityQueue}
use distributed_task_dispath.Recovery.Merge.{ascending}
use distributed_task_dispath.Recovery.Trace.{emit_all}
use distributed_task_dispath.Recovery.Opened.{all_good, joined, merge_order}
use distributed_task_dispath.Recovery.Picked.{
  outside, numbered, set_bit, pick, ℤ-cases, length-mark, sum-pick, pick-ascending, count-pick,
  unmarked, inside,
}

abbrev pub with_task : ℤ → List Bytes → List Bytes
with_task task [] = []
with_task task (l ∷ ls) = (to_string_int task ++ l) ∷ with_task task ls

write_seen :
    (task : ℤ) (l : Bytes) (flags : List Bool) (out : List Bytes) (n : ℕ)
    → n < length flags
    → get_or flags n false ≡ true
    → write_once task (pos n) l (flags, out) ≡ some (flags, out)
unfolding write_once
write_seen task l flags out n h seen = rw (lt→ltb n (length flags) h, seen) refl

write_fresh :
    (task : ℤ) (l : Bytes) (flags : List Bool) (out : List Bytes) (n : ℕ)
    → n < length flags
    → get_or flags n false ≡ false
    → write_once task (pos n) l (flags, out)
      ≡ some (mark flags n, out ++ (to_string_int task ++ l) ∷ [])
unfolding write_once
write_fresh task l flags out n h fresh = rw (lt→ltb n (length flags) h, fresh) refl

write_once_all :
    (task : ℤ) (ls : List Bytes) (flags : List Bool) (out : List Bytes)
    → sum (outside (length flags)) ls ≡ 0
    → (left : List Bool) × (emit_all (write_once task) ls (flags, out)
        ≡ some (left, out ++ with_task task (pick flags ls)))
unfolding pick
write_once_all task [] flags out h = (flags, ap (λ o. some (flags, o)) (sym (append-nil out)))
write_once_all task (l ∷ ls) flags out h = elim (ℤ-cases (line_num l)) [
  | inl (n, e) ↦
      let inn = inside flags l ls n e h in
      elim (Bool-cases (get_or flags n false)) [
        | inl seen ↦
            let rest = write_once_all task ls flags out (inn.1) in
            (
              rest.0,
              rw (e, write_seen task l flags out n (inn.0) seen, seen, emit_all, pick) (rest.1),
            )
        | inr fresh ↦
            let rest =
              write_once_all task ls (mark flags n) (out ++ (to_string_int task ++ l) ∷ [])
                (rw (length-mark flags n) (inn.1)) in
            (
              rest.0,
              rw (e, write_fresh task l flags out n (inn.0) fresh, fresh, emit_all, pick)
                  (rest.1
                    ∙ ap (λ o. some (rest.0, o))
                        (append_assoc out ((to_string_int task ++ l) ∷ [])
                          (with_task task (pick (mark flags n) ls)))),
            )
      ]
  | inr (n, e) ↦
      let here : outside (length flags) l ≡ 1 = rw (e, outside) refl in absurd (omega (arith, here))
]

write_once_leaves :
    (task : ℤ) (ls : List Bytes) (flags : List Bool) (out : List Bytes)
    → 0 < sum (outside (length flags)) ls
    → emit_all (write_once task) ls (flags, out) ≡ none
unfolding write_once
write_once_leaves task [] flags out h = absurd (omega arith)
write_once_leaves task (l ∷ ls) flags out h = elim (ℤ-cases (line_num l)) [
  | inl (n, e) ↦ elim (Bool-cases (ltb n (length flags))) [
    | inl inn ↦
        let here : outside (length flags) l ≡ 0 = rw (e, inn, outside) refl in
        elim (Bool-cases (get_or flags n false)) [
          | inl seen ↦
              rw (e, inn, seen, emit_all)
                (write_once_leaves task ls flags out (omega (arith, here)))
          | inr fresh ↦
              rw (e, inn, fresh, emit_all)
                (write_once_leaves task ls (mark flags n) (out ++ (to_string_int task ++ l) ∷ [])
                  (rw (length-mark flags n) (omega (arith, here))))
        ]
    | inr out_of ↦ rw (e, out_of, emit_all) refl
  ]
  | inr (n, e) ↦ rw (e, emit_all) refl
]

module _ (pq : PriorityQueue) (fuel : ℕ) (task : ℤ) (memory : List Bool)
    (nodes : List (List Bytes)) where
  -- If every node's file has a line and its lines ascend by number, the fuel exceeds the number of
  -- lines, every line's number is an index of the array `line_flag`, and the array's fresh memory
  -- holds zeros only, then `sort_file` comes to an end. The lines that it puts out are lines of the nodes' files, each
  -- behind the task number and none more often than the files have it. They ascend by number, and a
  -- number has exactly one line if some line of the files has it, and none otherwise.
  pub sort_file-writes_each_number_once :
      all_good nodes ≡ true
      → sum (λ _. 1) (joined nodes) < fuel
      → sum (outside (length memory)) (joined nodes) ≡ 0
      → sum set_bit memory ≡ 0
      → (picked : List Bytes) × ((sort_file pq fuel task memory nodes
            ≡ some (with_task task picked))
          × ((ascending picked ≡ true)
              × (((g : Bytes → ℕ) → sum g picked ≤ sum g (joined nodes))
                  × ((m : ℕ)
                      → sum (numbered m) picked
                        ≡ (if sum (numbered m) (joined nodes) == 0 then 0 else 1)))))
  unfolding sort_file
  sort_file-writes_each_number_once good enough in_range zeros =
      let o = merge_order pq (write_once task) fuel nodes good enough in
      let w =
        write_once_all task o.order memory [] (o.complete (outside (length memory)) ∙ in_range) in
      (
        pick memory o.order,
        (
          rw (o.opens, o.run (memory, []), w.1) refl,
          (
            pick-ascending memory o.order o.asc,
            (
              λ g. omega (arith, sum-pick g memory o.order, o.complete g),
              λ m.
                  let c =
                    count-pick memory o.order m (o.complete (outside (length memory)) ∙ in_range) in
                  rw (o.complete (numbered m)) at (rw (unmarked memory m zeros) at c),
            ),
          ),
        ),
      )

  -- If every node's file has a line and its lines ascend by number, the fuel exceeds the number of
  -- lines, and some line's number is no index of the array `line_flag`, then `sort_file` accesses
  -- the array outside its bounds, which is undefined behaviour.
  pub sort_file-leaves_line_flag :
      all_good nodes ≡ true
      → sum (λ _. 1) (joined nodes) < fuel
      → 0 < sum (outside (length memory)) (joined nodes)
      → sort_file pq fuel task memory nodes ≡ none
  unfolding sort_file
  sort_file-leaves_line_flag good enough beyond =
      let o = merge_order pq (write_once task) fuel nodes good enough in
      rw
        (
          o.opens,
          o.run (memory, []),
          write_once_leaves task o.order memory []
              (omega (arith, o.complete (outside (length memory)))),
        )
        refl
