-- ===== src/Examples/Rounds.antt =====
-- The theorems about a dispatch and the rounds that follow it, applied.
use distributed_task_dispath.Prelude.{
  ◌+◌, ◌==◌, false, ◌⊎◌, ℕ, true, ◌∙◌, List, All, In, [], ◌∷◌, some, ◌≡◌, refl, arith,
  if◌then◌else◌,
}
use distributed_task_dispath.Bytes.{Bytes, codes}
use distributed_task_dispath.Bytes.Decimal.{stoi, to_string, to_string_int}
use distributed_task_dispath.Zookeeper.{World, mode_monitor, on_children, on_data}
use distributed_task_dispath.Zookeeper.Laws.{status}
use distributed_task_dispath.Cluster.Paths.{g_path_files, g_path_works, child}
use distributed_task_dispath.Cluster.Dispatch.{dispatch_work, wk_command, calc_dest_no, dest_of}
use distributed_task_dispath.Cluster.Dispatch.Loops.{waits}
use distributed_task_dispath.Cluster.Dispatch.Watched.{Watched, Grows, dispatch_work-Watched}
use distributed_task_dispath.Cluster.Watcher.{changed_event, zktest_watcher_g}
use distributed_task_dispath.Cluster.Watcher.Heard.{NotAgain, worker, zktest_watcher_g-Heard}
use distributed_task_dispath.Cluster.Watcher.Returns.{Serves}
use distributed_task_dispath.Work.Program.Completed.{pairs, dispatch_work-rounds}
use distributed_task_dispath.Work.Program.Rounds.{rounds, Worked}
use distributed_task_dispath.Work.{Tools}
use distributed_task_dispath.Prelude.Int.{pos, negsuc}
use distributed_task_dispath.Bytes.{bytes_eq}
use distributed_task_dispath.Examples.Cluster.{pos_of, unlike}
use distributed_task_dispath.Examples.Service.{service, service_laws}

-- The files of the tasks 3 and 7 wait, that of 8 is done; the monitor m, and the idle workers a, b.
abbrev two_wait : World service
two_wait = record {
  store =
      (codes "/files", codes "file")
      ∷ (codes "/files/3", codes "r")
      ∷ (codes "/files/7", codes "r")
      ∷ (codes "/files/8", codes "g")
      ∷ (codes "/works/m", codes "s")
      ∷ (codes "/works/a", codes "s")
      ∷ (codes "/works/b", codes "s")
      ∷ [];
  watches = [];
  g_mode = mode_monitor;
}

abbrev fls : List Bytes
fls = codes "3" ∷ codes "7" ∷ codes "8" ∷ []

abbrev wks : List Bytes
wks = codes "m" ∷ codes "a" ∷ codes "b" ∷ []

-- The worker a recovers its file at the second try, and b never does.
abbrev disks : Bytes → ℕ
disks k = if bytes_eq k (codes "a") then 0 else 7

abbrev some_luck : Tools
some_luck = record {
  Disk = ℕ;
  csv_recovery = λ task d. (if d == 1 then pos 0 else negsuc 0, d + 1);
  deltask = λ d. d;
  send_file = λ target path d. d;
}

dispatch_work-rounds_example :
    (w' : World service) × (t : service.Store) × (dispatch_work service (codes "m") two_wait
      ≡ some w')
    × (rounds service some_luck 1 5 disks
          (pairs service_laws (codes "m") fls wks two_wait.store)
          w'.store
        ≡ some t)
    × All
        (Worked service_laws some_luck disks t)
        (pairs service_laws (codes "m") fls wks two_wait.store)
    × All
        (λ f.
          ((waits service_laws two_wait.store f ≡ true)
            × (k : Bytes) × In (f, k) (pairs service_laws (codes "m") fls wks two_wait.store))
          ⊎ ((waits service_laws two_wait.store f ≡ false)
              × (status service_laws t (child g_path_files f)
                  ≡ status service_laws two_wait.store (child g_path_files f))))
        fls
unfolding child to_string
dispatch_work-rounds_example =
    dispatch_work-rounds service_laws (λ n s p. refl) some_luck 1 5 disks (codes "m") two_wait fls
      wks refl refl ((2, refl, omega arith), ((6, refl, omega arith), ((7, refl, omega arith), tt)))
      (pos_of refl, (pos_of refl, (pos_of refl, tt)))
      (pos_of refl, (pos_of refl, (pos_of refl, tt)))
      ((unlike refl, (unlike refl, tt)), ((unlike refl, tt), (tt, tt)))
      ((unlike refl, (unlike refl, tt)), ((unlike refl, tt), (tt, tt))) refl (ground (arith, child))

dispatch_work-Watched_example :
    (w' : World service) × (dispatch_work service (codes "m") two_wait ≡ some w')
    × In (on_children g_path_works) w'.watches
    × All (Watched w') wks
    × Grows two_wait w'
unfolding child wk_command calc_dest_no dest_of stoi to_string_int
dispatch_work-Watched_example =
    dispatch_work-Watched (codes "m") two_wait fls wks refl refl
      ((codes "w_3_2", refl), ((codes "w_7_1", refl), ((codes "w_8_2", refl), tt)))

-- The names below /files are these three.
abbrev Three : service.Store → Type 0
Three s = service.get_children s g_path_files ≡ some fls

Three-Serves : Serves service Three
unfolding child wk_command calc_dest_no dest_of stoi to_string_int
Three-Serves = record {
  by_set = λ s p d h. service_laws.children-set s p d g_path_files ∙ h;
  elect = λ s h. (_, refl);
  works = λ s h. (_, refl);
  files = λ s h.
      (fls, h, ((codes "w_3_2", refl), ((codes "w_7_1", refl), ((codes "w_8_2", refl), tt))));
}

zktest_watcher_g-Heard_example :
    (w' : World service) × (zktest_watcher_g service
        (codes "m")
        changed_event
        true
        (child g_path_works (codes "a"))
        two_wait
      ≡ some w')
    × Grows two_wait w'
    × (In (on_data (child g_path_works (codes "a"))) w'.watches
        ⊎ NotAgain (codes "m") two_wait w' changed_event (child g_path_works (codes "a")))
unfolding child
zktest_watcher_g-Heard_example =
    zktest_watcher_g-Heard (codes "m") Three two_wait changed_event (child g_path_works (codes "a"))
      (on_data (child g_path_works (codes "a"))) Three-Serves refl
      (worker (codes "a") (child g_path_works (codes "a")) refl)
