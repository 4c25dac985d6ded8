-- ===== src/Examples/Programs.antt =====
-- The theorems about the programs, and about the file operations as a whole, applied.
use distributed_task_dispath.Prelude.{
  ℕ, true, false, List, [], ◌∷◌, none, some, ◌≡◌, ◌≢◌, refl, inl, inr, arith, sum, ◌==◌, ◌++◌,
  if◌then◌else◌,
}
use distributed_task_dispath.Bytes.{Bytes, codes}
use distributed_task_dispath.Bytes.Decimal.{stoi, to_string, to_string_int}
use distributed_task_dispath.Zookeeper.{World, mode_worker, mode_monitor, pad}
use distributed_task_dispath.Cluster.Paths.{g_path_files, child}
use distributed_task_dispath.Cluster.Dispatch.{dispatch_work, wk_command, calc_dest_no, dest_of}
use distributed_task_dispath.Cluster.Dispatch.Loops.{sent}
use distributed_task_dispath.Cluster.Files.{dlt}
use distributed_task_dispath.Cluster.Files.Listing.{show_list, show_list-statuses}
use distributed_task_dispath.Cluster.Files.Deleted.{dlt_removes}
use distributed_task_dispath.Cluster.Files.Refines.{
  Operation, inserts, sets, gets, run_files, run_map, Holds, run_files-refines,
}
use distributed_task_dispath.Cluster.Worker.{recv_work}
use distributed_task_dispath.Reader.Load.{ReadCsv, defaults, set_loop_num, load_tasks}
use distributed_task_dispath.Reader.Load.Once.{is_task}
use distributed_task_dispath.Tendis.{Tendis, redis_select}
use distributed_task_dispath.Work.{leave, cmd_target}
use distributed_task_dispath.Work.Insert.{ready, insert_tasks, barrier}
use distributed_task_dispath.Work.Insert.Barrier.{AllReady, barrier-waits}
use distributed_task_dispath.Work.Insert.Missed.{insert_tasks-apart}
use distributed_task_dispath.Work.Program.{Turn, work_loop}
use distributed_task_dispath.Work.Program.Dismissed.{dispatch_work-dismisses}
use distributed_task_dispath.Examples.Cluster.{pos_of, unlike}
use distributed_task_dispath.Work.SendFile.{Passwords, node_ip, user, passwd, dest, at, send_file}
use distributed_task_dispath.Work.SendFile.InRange.{send_file-in_range}
use distributed_task_dispath.Examples.Service.{lookup, service, service_laws}
use distributed_task_dispath.Examples.Work.{tools}

-- Only /files is there.
abbrev fresh : World service
fresh = record { store = (codes "/files", codes "file") ∷ []; watches = []; g_mode = mode_worker }

fresh-Holds : Holds service_laws fresh.store (λ f. none)
unfolding child
fresh-Holds = record { root = refl; statuses = λ f. refl; proper = λ f e. absurd (cc) }

abbrev operations : List Operation
operations =
    inserts (codes "3")
    ∷ sets (codes "3") b'y' (codes "es")
    ∷ gets (codes "3")
    ∷ gets (codes "4")
    ∷ []

run_files-refines_example :
    ((run_files service operations fresh).0 ≡ codes "y" ∷ [] ∷ [])
    × Holds service_laws
        (run_files service operations fresh).1.store
        (run_map operations (λ f. none)).1
run_files-refines_example =
    run_files-refines service_laws operations fresh (λ f. none)
      ((omega arith, tt), (omega arith, (tt, (tt, tt)))) fresh-Holds

-- Two files, one of which waits.
abbrev two_files : World service
two_files = record {
  store =
      (codes "/files", codes "file")
      ∷ (codes "/files/3", codes "r")
      ∷ (codes "/files/7", codes "g")
      ∷ [];
  watches = [];
  g_mode = mode_worker;
}

abbrev status_now : Bytes → ℕ
status_now [] = 0
status_now (c ∷ f) = if c == b'3' then b'r' else b'g'

show_list-statuses_example :
    (w' : World service) × (show_list service two_files ≡ some (codes "3:r" ∷ codes "7:g" ∷ [], w'))
    × (w'.store ≡ two_files.store)
unfolding child
show_list-statuses_example =
    show_list-statuses service_laws status_now (codes "3" ∷ codes "7" ∷ []) two_files refl
      ((refl, omega arith), ((refl, omega arith), tt))

dlt_removes_example :
    (w' : World service) × (dlt service (codes "3") two_files ≡ some w')
    × (lookup w'.store (codes "/files/3") ≡ none)
    × ((g : Bytes)
        → codes "3" ≢ g
        → lookup w'.store (child g_path_files g) ≡ lookup two_files.store (child g_path_files g))
unfolding child
dlt_removes_example =
    dlt_removes service_laws (codes "3") two_files (some (codes "r")) [] refl (inr refl)

-- A worker's node with some bytes.
abbrev told : Bytes → World service
told text = record {
  store = (codes "/works/a", pad 512 text) ∷ [];
  watches = [];
  g_mode = mode_worker;
}

abbrev turn : Turn service
turn = record { events = []; others = λ s. s; nap = 5 }

-- The tasks 1 and 3 have lines, and `loop_num` is 3.
abbrev two_tasks : ReadCsv
two_tasks =
    set_loop_num 3 (record defaults { is_member_of_task = false ∷ true ∷ false ∷ true ∷ [] })

insert_tasks-apart_example :
    (tasks : List ℕ) × (w' : World service) × (load_tasks two_tasks ≡ some tasks)
    × (insert_tasks service two_tasks.is_member_of_task 3 1 fresh ≡ some w')
    × (sum (is_task 3) tasks ≡ 0)
    × (lookup w'.store (codes "/files/3") ≡ some (codes "r"))
unfolding child to_string
insert_tasks-apart_example =
    insert_tasks-apart service_laws two_tasks fresh (λ f. none) 3 (omega arith) fresh-Holds

-- All statuses are ok once the data is not 0.
abbrev db : Tendis
db = record { Data = ℕ; command = λ cmd d. (some (some (if d == 0 then [] else ready)), d) }

barrier-waits_example :
    (d' : ℕ) × (barrier db ((λ d. d) ∷ (λ d. 1) ∷ []) 0 ≡ some d') × AllReady db d'
unfolding redis_select
barrier-waits_example = barrier-waits db ((λ d. d) ∷ []) [] (λ d. 1) 0 (λ i d. refl) (λ i h. refl)

abbrev passwords : Passwords
passwords = record {
  elok = codes "p";
  shinji = codes "q";
  stern = codes "r";
  mentor = codes "s";
  colleague = codes "t";
}

send_file-in_range_example :
    (ip : Bytes) × (name : Bytes) × (word : Bytes) × (place : Bytes) × (at node_ip 2 ≡ some ip)
    × (at user 2 ≡ some name)
    × (at (passwd passwords) 2 ≡ some word)
    × (at dest 2 ≡ some place)
    × (send_file passwords
          (cmd_target (recv_work service (codes "a") (told (sent (to_string 3)))).0)
          (codes "3.csv")
        ≡ some (
            codes "./autoscp.sh "
            ++ ip
            ++ codes " "
            ++ name
            ++ codes " "
            ++ word
            ++ codes " "
            ++ codes "3.csv"
            ++ codes " "
            ++ place))
unfolding child
send_file-in_range_example =
    send_file-in_range service_laws passwords (codes "a") (codes "3.csv")
      (told (sent (to_string 3))) 3 (omega arith) refl

-- No file waits; the monitor m, the idle worker a, and b at work.
abbrev no_work : World service
no_work = record {
  store =
      (codes "/files", codes "file")
      ∷ (codes "/files/7", codes "y")
      ∷ (codes "/works/m", codes "s")
      ∷ (codes "/works/a", codes "s")
      ∷ (codes "/works/b", pad 512 (codes "w_7_1"))
      ∷ [];
  watches = [];
  g_mode = mode_monitor;
}

dispatch_work-dismisses_example :
    (w' v : World service) × (dispatch_work service (codes "m") no_work ≡ some w')
    × (work_loop service tools
          (codes "a")
          1
          (turn ∷ [])
          (record { store = w'.store; watches = []; g_mode = mode_worker })
          0
        ≡ some (leave, v, 0))
unfolding child wk_command calc_dest_no dest_of stoi to_string_int
dispatch_work-dismisses_example =
    dispatch_work-dismisses service_laws tools 1 (codes "m") (codes "a") no_work (codes "7" ∷ [])
      (codes "m" ∷ codes "a" ∷ codes "b" ∷ []) turn [] [] 0 (λ n s p. refl) refl refl
      ((codes "w_7_1", refl), tt) (pos_of refl, tt) (pos_of refl, (pos_of refl, (pos_of refl, tt)))
      ((unlike refl, (unlike refl, tt)), ((unlike refl, tt), (tt, tt))) refl (inl refl) refl
