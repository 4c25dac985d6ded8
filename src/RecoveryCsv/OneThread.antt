-- ===== src/RecoveryCsv/OneThread.antt =====
-- What `do_recovery` writes with the one thread of its pool.
use distributed_task_dispath.Prelude.{
  ℕ, zero, suc, ◌+◌, [], ◌∷◌, ◌++◌, some, ◌≡◌, refl, ap, sym, ◌∙◌, arith, sum, length,
  length-append, ==_iff,
}
use distributed_task_dispath.Bytes.{codes}
use distributed_task_dispath.Tendis.{Tendis, redis_select}
use distributed_task_dispath.ThreadPool.{ThreadPool, Reach}
use distributed_task_dispath.ThreadPool.Join.{busy}
use distributed_task_dispath.ThreadPool.OneThread.{one_thread-in_order}
use distributed_task_dispath.RecoveryCsv.{
  RecoveryCsv, thread_num, line_key, do_select, do_write, Task, select_tasks, blocks_of,
  recovery_tasks, run_tasks,
}

module _ (db : Tendis) where
  -- A block that is next goes to the queue, and leaves the file as it is.
  record Selected (p q : RecoveryCsv db) : Type 0 where
    file : q.file ≡ p.file
    flag : q.write_flag ≡ suc p.write_flag
    queue : length q.buf_queue ≡ suc (length p.buf_queue)

  do_select_ok :
      (b : ℕ) (p : RecoveryCsv db)
      → b ≡ p.write_flag
      → (q : RecoveryCsv db) × (do_select db b p ≡ some q) × Selected p q
  unfolding do_select
  do_select_ok b p e =
      let now = (==_iff b p.write_flag).1 e in
      let key = line_key p.task_id b in
      let (value, d) = redis_select db (codes "get " ++ key) p.rd in
      let line = key ++ codes "," ++ value ++ (10 ∷ []) in
      (
        record p { rd = d; buf_queue = p.buf_queue ++ line ∷ []; write_flag = suc p.write_flag },
        rw (now, do_select) refl,
        record {
          file = refl;
          flag = refl;
          queue = omega (arith, length-append p.buf_queue (line ∷ []));
        },
      )

  run_selects :
      (n b : ℕ) (p : RecoveryCsv db)
      → b ≡ p.write_flag
      → (q : RecoveryCsv db) × (run_tasks db (select_tasks n b) p ≡ some q)
        × (q.file ≡ p.file)
        × (length q.buf_queue ≡ n + length p.buf_queue)
  unfolding run_tasks
  run_selects zero b p e = (p, refl, refl, omega arith)
  run_selects (suc n) b p e =
      let (q, now, s) = do_select_ok b p e in
      let (r, run, file, queue) = run_selects n (suc b) q (ap suc e ∙ sym s.flag) in
      (r, rw (now, run_tasks) run, file ∙ s.file, omega (arith, queue, s.queue))

  -- Let a pool of `thread_num` threads get the tasks of `do_recovery` on a fresh object, and come to
  -- its end. Then the tasks, in the order in which the pool does them, run through, the file is
  -- left empty, and all the lines are still in the queue: `do_write` runs before any line is there.
  pub do_recovery-writes_nothing :
      {pool : ThreadPool Task} (p : RecoveryCsv db)
      → Reach thread_num pool
      → pool.enqueued ≡ recovery_tasks db p
      → sum busy pool.workers ≡ 0
      → p.write_flag ≡ 1
      → p.buf_queue ≡ []
      → p.file ≡ []
      → (q : RecoveryCsv db) × (run_tasks db pool.done p ≡ some q)
        × (q.file ≡ [])
        × (length q.buf_queue ≡ blocks_of p.total_blocks)
  unfolding recovery_tasks run_tasks do_write
  do_recovery-writes_nothing {pool} p r tasks ended flag queue file =
      let order = one_thread-in_order r ended ∙ tasks in
      let n = blocks_of p.total_blocks in
      let (q, run, same, count) = run_selects n 1 (do_write db p) (sym flag) in
      (
        q,
        ap (λ ts. run_tasks db ts p) order ∙ run,
        same ∙ rw (file, queue) refl,
        omega (arith, count),
      )
