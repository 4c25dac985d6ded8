-- ===== src/Work/Insert/Missed.antt =====
-- Which tasks `read_file` puts into the database and which into the cluster.
use mathlib.Core.Option
use distributed_task_dispath.Prelude.{
  ℕ, zero, suc, ◌+◌, ◌≤◌, ◌<◌, Bool, true, false, ◌&&◌, List, [], ◌∷◌, Option, none, some, ◌≡◌,
  refl, ap, sym, ◌∙◌, inl, inr, arith, sum, get_or, ltb, leb, ◌==◌, ==_iff, length, Bool-cases,
  if◌then◌else◌,
}
use distributed_task_dispath.Prelude.Int.{pos}
use distributed_task_dispath.Bytes.{bytes_eq}
use distributed_task_dispath.Bytes.Equality.{bytes_eq_refl, bytes_eq_ne}
use distributed_task_dispath.Bytes.Search.{Lacks}
use distributed_task_dispath.Bytes.Decimal.{to_string, atoi, atoi-to_string, to_string-All}
use distributed_task_dispath.Zookeeper.{Zookeeper, World}
use distributed_task_dispath.Zookeeper.Laws.{Laws}
use distributed_task_dispath.Cluster.Paths.{g_path_files, child}
use distributed_task_dispath.Cluster.Files.{insr2clst}
use distributed_task_dispath.Cluster.Files.Refines.{
  Statuses, or_waits, insert_status, Holds, insr2clst-Holds,
}
use distributed_task_dispath.Reader.Load.{ReadCsv, load_tasks}
use distributed_task_dispath.Reader.Load.Once.{is_task, members_from-count}
use distributed_task_dispath.Work.Command.{IsDigit-Lacks}
use distributed_task_dispath.Work.Insert.{insert_tasks}

pos_inj : {a b : ℕ} → pos a ≡ pos b → a ≡ b
pos_inj e = cc

same_task : (i j : ℕ) → bytes_eq (to_string i) (to_string j) ≡ (i == j)
same_task i j = elim (Bool-cases (i == j)) [
  | inl same ↦ rw (same, (==_iff i j).0 same) (bytes_eq_refl (to_string j))
  | inr other ↦ rw other (
      bytes_eq_ne (to_string i) (to_string j) λ e.
        let back = pos_inj (sym (atoi-to_string i) ∙ ap atoi e ∙ atoi-to_string j) in
        absurd (ground (arith, other, back)))
]

-- The statuses after the loop.
abbrev pub inserted : List Bool → ℕ → ℕ → Statuses → Statuses
inserted flags zero from m = m
inserted flags (suc left) from m =
    inserted flags left (suc from)
      (if get_or flags from false then insert_status (to_string from) m else m)

one_status :
    (flag : Bool) (from i : ℕ) (m : Statuses)
    → (if flag then insert_status (to_string from) m else m) (to_string i)
      ≡ (if flag && (from == i) then or_waits (m (to_string i)) else m (to_string i))
one_status true from i m = rw (same_task from i) refl
one_status false from i m = refl

or_waits_twice : (o : Option ℕ) → or_waits (or_waits o) ≡ or_waits o
or_waits_twice none = refl
or_waits_twice (some c) = refl

inserted-status :
    (flags : List Bool) (left from i : ℕ) (m : Statuses)
    → inserted flags left from m (to_string i) ≡ (
        if leb from i && (ltb i (from + left) && get_or flags i false)
        then or_waits (m (to_string i))
        else m (to_string i))
inserted-status flags zero from i m = ground arith
inserted-status flags (suc left) from i m =
    inserted-status flags left (suc from) i _
    ∙ rw (one_status (get_or flags from false) from i m) (elim (Bool-cases (from == i)) [
      | inl same ↦
          let here = (==_iff from i).0 same in
          elim (Bool-cases (get_or flags from false)) [
            | inl set ↦ let there = rw here at set in ground (arith, same, set, there)
            | inr clear ↦ let there = rw here at clear in ground (arith, same, clear, there)
          ]
      | inr other ↦ ground (arith, other)
    ])

module _ {zk : Zookeeper} (laws : Laws zk) where
  insert_tasks-Holds :
      (flags : List Bool) (left from : ℕ) (w : World zk) (m : Statuses)
      → from + left ≤ length flags
      → Holds laws w.store m
      → (w' : World zk) × (insert_tasks zk flags left from w ≡ some w')
        × Holds laws w'.store (inserted flags left from m)
  unfolding insert_tasks
  insert_tasks-Holds flags zero from w m size h = (w, refl, h)
  insert_tasks-Holds flags (suc left) from w m size h =
      let inside : ltb from (length flags) ≡ true = ground (arith, size) in
      elim (Bool-cases (get_or flags from false)) [
        | inl set ↦
            let after = insr2clst-Holds laws (to_string from) w m (name-Lacks from) h in
            let (w', run, held) =
              insert_tasks-Holds flags left (suc from) (insr2clst zk (to_string from) w)
                (insert_status (to_string from) m) (omega arith) after in
            (w', rw (inside, set, insert_tasks) run, rw set held)
        | inr clear ↦
            let (w', run, held) = insert_tasks-Holds flags left (suc from) w m (omega arith) h in
            (w', rw (inside, clear, insert_tasks) run, rw clear held)
      ]
    where
      name-Lacks : (i : ℕ) → Lacks b'/' (to_string i)
      name-Lacks i = IsDigit-Lacks b'/' (to_string i) (inl (omega arith)) (to_string-All i)

  -- Let there be more flags than `loop_num`, and the service hold the statuses of a map. Then `load`
  -- gives to the pool the tasks below `loop_num` whose flag is set, each once, and the loop of
  -- `read_file` inserts the files of the tasks from 1 to `loop_num` whose flag is set and leaves the
  -- other files of tasks as they are: the last task gets a file without its lines being loaded, and
  -- the task 0 is loaded and gets no file.
  pub insert_tasks-apart :
      (r : ReadCsv) (w : World zk) (m : Statuses) (i : ℕ)
      → r.loop_num < length r.is_member_of_task
      → Holds laws w.store m
      → (tasks : List ℕ) × (w' : World zk) × (load_tasks r ≡ some tasks)
        × (insert_tasks zk r.is_member_of_task r.loop_num 1 w ≡ some w')
        × (sum (is_task i) tasks
            ≡ (if ltb i r.loop_num && get_or r.is_member_of_task i false then 1 else 0))
        × (laws.node w'.store (child g_path_files (to_string i))
            ≡ Option.map
                (λ c. c ∷ [])
                (if leb 1 i && (leb i r.loop_num && get_or r.is_member_of_task i false)
                  then or_waits (m (to_string i))
                  else m (to_string i)))
  unfolding load_tasks
  insert_tasks-apart r w m i room h =
      let flags = r.is_member_of_task in
      let (tasks, loaded, count) = members_from-count flags r.loop_num 0 (omega arith) in
      let (w', run, held) = insert_tasks-Holds flags r.loop_num 1 w m (omega arith) h in
      (
        tasks,
        w',
        loaded,
        run,
        count i ∙ ground arith,
        held.statuses (to_string i)
            ∙ ap (Option.map (λ c. c ∷ [])) (inserted-status flags r.loop_num 1 i m ∙ ground arith),
      )
