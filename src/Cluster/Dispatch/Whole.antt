-- ===== src/Cluster/Dispatch/Whole.antt =====
-- One whole run of `dispatch_work`.
use distributed_task_dispath.Prelude.{
  ◌<◌, true, false, List, [], ◌∷◌, some, ◌≡◌, ◌≢◌, refl, sym, ap, ◌∙◌, inl, inr, arith, leb, length,
  drop, Bool-cases, keep, All, Distinct, if◌then◌else◌,
}
use distributed_task_dispath.Bytes.{Bytes}
use distributed_task_dispath.Zookeeper.{
  Zookeeper, World, Buffer, fill, pad, asking, on_data, on_children, zeroed, zoo_get,
  zoo_get_children, zoo_set,
}
use distributed_task_dispath.Zookeeper.Laws.{Laws, fill-first}
use distributed_task_dispath.Cluster.Paths.{g_path_files, g_path_works, child, child_ne}
use distributed_task_dispath.Cluster.Dispatch.{stop_command, stop_rest, dispatch_work}
use distributed_task_dispath.Cluster.Dispatch.Loops.{
  Sendable, status-set_other, waits, idle, Working,
}
use distributed_task_dispath.Cluster.Dispatch.Pairing.{Calm, Filed, deal, issue, assign_lem}

module _ {zk : Zookeeper} (laws : Laws zk) where
  abbrev stopped : Bytes → zk.Store → zk.Store
  stopped wk s = (zk.set s (child g_path_works wk) (pad 512 stop_command)).0

  -- Every worker of a list is told to stop.
  abbrev pub stop_all : List Bytes → zk.Store → zk.Store
  stop_all [] s = s
  stop_all (wk ∷ wks) s = stop_all wks (stopped wk s)

  stopped_rest :
      (localhost wk : Bytes) (s : zk.Store) (wks : List Bytes)
      → All (λ k. wk ≢ k) wks
      → Working laws s wks
      → (keep (idle laws localhost (stopped wk s)) wks ≡ keep (idle laws localhost s) wks)
        × Working laws (stopped wk s) wks
  stopped_rest localhost wk s [] d h = (refl, tt)
  stopped_rest localhost wk s (k ∷ wks) d h =
      let same =
        status-set_other laws s (child g_path_works wk) (pad 512 stop_command)
          (child g_path_works k) (child_ne _ wk k d.0) in
      let (e, g) = stopped_rest localhost wk s wks d.1 h.1 in (rw (same, e), (rw same h.0, g))

  stop_rest_lem :
      (localhost : Bytes) (wks : List Bytes) (b : Buffer) (w : World zk)
      → 0 < b.len
      → Working laws w.store wks
      → Distinct wks
      → (stop_rest zk localhost wks b w).store
        ≡ stop_all (keep (idle laws localhost w.store) wks) w.store
  unfolding stop_rest zoo_get zoo_set
  stop_rest_lem localhost [] b w room hw d = refl
  stop_rest_lem localhost (wk ∷ wks) b w room hw d =
      let path : Bytes = child g_path_works wk in
      let b1 : Buffer = fill b (zk.get w.store path b.len) in
      let w1 : World zk = asking zk true (on_data path) w in
      let (read, room1) = fill-first laws w.store path b room hw.0 in
      elim (Bool-cases (idle laws localhost w.store wk)) [
        | inr busy ↦ rw (read, busy, stop_rest) (stop_rest_lem localhost wks b1 w1 room1 hw.1 d.1)
        | inl free ↦
            let w2 : World zk = zoo_set zk path (pad 512 stop_command) w1 in
            let (e, g) = stopped_rest localhost wk w.store wks d.0 hw.1 in
            rw (read, free, stop_rest) (stop_rest_lem localhost wks b1 w2 room1 g d.1 ∙ rw e)
      ]

  -- The store that a dispatch is to leave: the files `fls` that wait go to the workers `wks` that
  -- are idle, in order, and if no file was left over the other idle workers are told to stop.
  abbrev pub dispatched : List Bytes → List Bytes → zk.Store → zk.Store
  dispatched fls wks s =
      let done = issue laws (deal fls wks) s in
      if leb (length fls) (length wks) then stop_all (drop (length fls) wks) done else done

  -- On names that are distinct and whose nodes hold data, with files for which a command can be
  -- written, and with the first bytes of the nodes left alone during the monitor's sleep,
  -- `dispatch_work` returns, and leaves the store in which the waiting files are paired in order
  -- with the idle workers other than the monitor, and in which the idle workers that remain are
  -- told to stop exactly when every waiting file found a worker.
  pub dispatch_work-dispatched :
      (calm : Calm laws) (localhost : Bytes) (w : World zk) (fls wks : List Bytes)
      → zk.get_children w.store g_path_files ≡ some fls
      → zk.get_children w.store g_path_works ≡ some wks
      → All Sendable fls
      → Filed laws w.store fls
      → Working laws w.store wks
      → Distinct wks
      → (w' : World zk) × (dispatch_work zk localhost w ≡ some w')
        × (w'.store
            ≡ dispatched
                (keep (waits laws w.store) fls)
                (keep (idle laws localhost w.store) wks)
                w.store)
  unfolding dispatch_work zoo_get_children
  dispatch_work-dispatched calm localhost w fls wks ef ew c hf hw d =
      let w2 : World zk = asking zk true (on_children g_path_works) w in
      let ready = keep (waits laws w.store) fls in
      let free = keep (idle laws localhost w.store) wks in
      let (r, run, a) =
        assign_lem laws calm localhost fls wks (zeroed 64) (zeroed 64) w2 c (omega arith)
          (omega arith) hf hw d in
      elim (Bool-cases r.0) [
        | inr short ↦
            let test : leb (length ready) (length free) ≡ false = sym a.finished ∙ short in
            (r.3, rw (ef, ew, run, short), rw test a.dealt)
        | inl full ↦
            let test : leb (length ready) (length free) ≡ true = sym a.finished ∙ full in
            let (there, apart, rest) = a.left full in
            (
              stop_rest zk localhost r.1 r.2 r.3,
              rw (ef, ew, run, full),
              rw test (
                  stop_rest_lem localhost r.1 r.2 r.3 a.room there apart
                  ∙ ap (λ l. stop_all l r.3.store) rest
                  ∙ ap (stop_all (drop (length ready) free)) a.dealt),
            )
      ]
