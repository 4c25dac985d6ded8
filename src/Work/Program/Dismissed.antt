-- ===== src/Work/Program/Dismissed.antt =====
-- The monitor and a worker together: when no file waits, the idle workers leave their loops.
use distributed_task_dispath.Prelude.{
  ℕ, true, List, [], ◌∷◌, some, ◌≡◌, refl, ap, ◌∙◌, arith, All, In, Distinct, leb, length, keep,
}
use distributed_task_dispath.Bytes.{Bytes}
use distributed_task_dispath.Zookeeper.{Zookeeper, World, Watch, mode_worker}
use distributed_task_dispath.Zookeeper.Laws.{Laws}
use distributed_task_dispath.Cluster.Paths.{g_path_files, g_path_works, child}
use distributed_task_dispath.Cluster.Dispatch.{dispatch_work}
use distributed_task_dispath.Cluster.Dispatch.Loops.{Sendable, waits, idle, Working}
use distributed_task_dispath.Cluster.Dispatch.Nodes.{
  keep-All, keep-Distinct, idle-There, stop_all-told,
}
use distributed_task_dispath.Cluster.Dispatch.Pairing.{Calm, Filed}
use distributed_task_dispath.Cluster.Dispatch.Whole.{stop_all, dispatched, dispatch_work-dispatched}
use distributed_task_dispath.Work.{Tools, leave}
use distributed_task_dispath.Work.Program.{Turn, work_loop}
use distributed_task_dispath.Work.Program.Stopped.{work_loop-stops}

module _ {zk : Zookeeper} (laws : Laws zk) where
  open laws use {node}

  dispatched_none :
      (wks : List Bytes) (s : zk.Store) → dispatched laws [] wks s ≡ stop_all laws wks s
  dispatched_none wks s = let enough : leb 0 (length wks) ≡ true = ground arith in rw enough refl

  -- On names that are distinct and whose nodes hold data, with files for which a command can be
  -- written, and with the first bytes of the nodes left alone during the monitor's sleep, let no file
  -- wait when the monitor dispatches, and let `k` be an idle worker other than the monitor. Then the
  -- dispatch returns, and the process of that name, on the store that the dispatch leaves, is out of
  -- its loop after its next round, if no event comes before it.
  pub dispatch_work-dismisses :
      (tools : Tools) (fuel : ℕ) (localhost k : Bytes) (w : World zk) (fls wks : List Bytes)
      (turn : Turn zk) (turns : List (Turn zk)) (watches : List Watch) (disk : tools.Disk)
      → Calm laws
      → zk.get_children w.store g_path_files ≡ some fls
      → zk.get_children w.store g_path_works ≡ some wks
      → All Sendable fls
      → Filed laws w.store fls
      → Working laws w.store wks
      → Distinct wks
      → keep (waits laws w.store) fls ≡ []
      → In k (keep (idle laws localhost w.store) wks)
      → turn.events ≡ []
      → (w' v : World zk) × (dispatch_work zk localhost w ≡ some w')
        × (work_loop zk tools k fuel
              (turn ∷ turns)
              (record { store = w'.store; watches = watches; g_mode = mode_worker })
              disk
            ≡ some (leave, v, disk))
  dispatch_work-dismisses tools fuel localhost k w fls wks turn turns watches disk calm ef ew c hf
        hw d none_waits i quiet =
      let free = keep (idle laws localhost w.store) wks in
      let (w', run, store) =
        dispatch_work-dispatched laws calm localhost w fls wks ef ew c hf hw d in
      let all_told =
        store
        ∙ ap (λ l. dispatched laws l free w.store) none_waits
        ∙ dispatched_none free w.store in
      let mine =
        ap (λ s. node s (child g_path_works k)) all_told
        ∙ stop_all-told laws k free w.store (keep-Distinct (idle laws localhost w.store) wks d)
            (idle-There laws localhost w.store free (keep-All (idle laws localhost w.store) wks))
            i in
      let (v, left, same) =
        work_loop-stops laws tools k fuel turn turns
          (record { store = w'.store; watches = watches; g_mode = mode_worker }) disk refl quiet
          mine in
      (w', v, run, left)
