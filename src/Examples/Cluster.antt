-- ===== src/Examples/Cluster.antt =====
-- The theorems about _zk_server/clust_comm.cpp, applied.
use distributed_task_dispath.Prelude.{
  ℕ, true, false, [], ◌∷◌, none, some, ◌≡◌, ◌≢◌, refl, inl, inr, arith, take, if◌then◌else◌, keep,
  ◌<◌, ltb, all, not, ◌==◌, All, Bool-cases, Distinct, get_or,
}
use distributed_task_dispath.Bytes.{Bytes, codes, bytes_eq, strcmp_gt, c_str}
use distributed_task_dispath.Bytes.Equality.{bytes_eq_iff}
use distributed_task_dispath.Bytes.Search.{Lacks}
use distributed_task_dispath.Bytes.Decimal.{stoi, to_string_int}
use distributed_task_dispath.Zookeeper.{
  World, mode_worker, mode_monitor, on_children, pad, first, zoo_get, zoo_get_children,
}
use distributed_task_dispath.Cluster.Paths.{g_path_works, g_path_elect, child}
use distributed_task_dispath.Cluster.Dispatch.{dispatch_work, wk_command, calc_dest_no, dest_of}
use distributed_task_dispath.Cluster.Dispatch.Loops.{waits, idle}
use distributed_task_dispath.Cluster.Dispatch.Whole.{dispatched, dispatch_work-dispatched}
use distributed_task_dispath.Cluster.Elect.{choose_mater, least}
use distributed_task_dispath.Cluster.Elect.OneMonitor.{one_monitor}
use distributed_task_dispath.Cluster.Elect.Outcome.{choose_mater-elects}
use distributed_task_dispath.Cluster.Files.{ensure}
use distributed_task_dispath.Cluster.Files.Creation.{ensure_raced, ensure_alone}
use distributed_task_dispath.Cluster.Recover.{recover}
use distributed_task_dispath.Cluster.Recover.Lost.{Commanded}
use distributed_task_dispath.Cluster.Recover.Whole.{recover-loses_work}
use distributed_task_dispath.Examples.Service.{Nodes, lookup, service, service_laws}

-- Two files wait and one is in work; of the four workers, one is the monitor and one is at work.
-- The node of the election that has the greater name belongs to the monitor.
abbrev cluster : Nodes
cluster =
    (codes "/files", codes "file")
    ∷ (codes "/files/3", codes "r")
    ∷ (codes "/files/7", codes "y")
    ∷ (codes "/works", codes "work")
    ∷ (codes "/works/m", codes "s")
    ∷ (codes "/works/a", codes "s")
    ∷ (codes "/works/b", pad 512 (codes "w_7_1"))
    ∷ (codes "/works/c", codes "s")
    ∷ (codes "/elect", codes "elct")
    ∷ (codes "/elect/proc-2", take 24 (pad 512 (codes "m")))
    ∷ (codes "/elect/proc-1", take 24 (pad 512 (codes "a")))
    ∷ []

pub pos_of : {n : ℕ} → ltb 0 n ≡ true → 0 < n
pos_of h = ground arith

pub unlike : {a b : Bytes} → bytes_eq a b ≡ false → a ≢ b
unlike {a} {b} h e = ground (arith, h, bytes_eq_iff a b)

pub lacks : (c : ℕ) (s : Bytes) → all (λ x. not (x == c)) s ≡ true → Lacks c s
lacks c [] h = tt
lacks c (x ∷ s) h = (ground arith, lacks c s (ground arith))

abbrev world : World service
world = record { store = cluster; watches = []; g_mode = mode_worker }

names_Distinct : Distinct (codes "m" ∷ codes "a" ∷ codes "b" ∷ codes "c" ∷ [])
names_Distinct = (
  (unlike refl, (unlike refl, (unlike refl, tt))),
  ((unlike refl, (unlike refl, tt)), ((unlike refl, tt), (tt, tt))),
)

dispatch_work-dispatched_example :
    (w' : World service) × (dispatch_work service (codes "m") world ≡ some w')
    × (w'.store
        ≡ dispatched service_laws
            (keep (waits service_laws cluster) (codes "3" ∷ codes "7" ∷ []))
            (keep
              (idle service_laws (codes "m") cluster)
              (codes "m" ∷ codes "a" ∷ codes "b" ∷ codes "c" ∷ []))
            cluster)
unfolding child wk_command calc_dest_no dest_of stoi to_string_int
dispatch_work-dispatched_example =
    dispatch_work-dispatched service_laws (λ n s p. refl) (codes "m") world
      (codes "3" ∷ codes "7" ∷ []) (codes "m" ∷ codes "a" ∷ codes "b" ∷ codes "c" ∷ []) refl refl
      ((codes "w_3_2", refl), ((codes "w_7_1", refl), tt)) (pos_of refl, (pos_of refl, tt))
      (pos_of refl, (pos_of refl, (pos_of refl, (pos_of refl, tt)))) names_Distinct

choose_mater-elects_example :
    (w' : World service) × (choose_mater service (codes "m") g_path_elect world ≡ some w')
    × (w'.store ≡ cluster)
    × (w'.g_mode ≡ mode_worker)
unfolding child strcmp_gt
choose_mater-elects_example =
    choose_mater-elects service_laws (codes "m") g_path_elect (codes "proc-1") (codes "a")
      (codes "proc-2") (codes "proc-1" ∷ []) world refl (inr (inl refl)) (refl, (refl, tt)) refl
      (omega arith) (omega arith, tt)

-- The process that holds the least name runs the election twice.
abbrev elected : World service
elected = record { store = cluster; watches = on_children g_path_elect ∷ []; g_mode = mode_monitor }

one_monitor_example : codes "a" ≡ codes "a"
unfolding child strcmp_gt choose_mater least zoo_get_children zoo_get c_str
one_monitor_example =
    one_monitor service_laws (codes "a") (codes "a") g_path_elect (codes "proc-1") (codes "a")
      (codes "proc-2") (codes "proc-1" ∷ []) world world elected elected refl refl (inr (inl refl))
      (refl, (refl, tt)) refl (omega arith) (omega arith, tt) refl refl refl refl

-- The root that is missing at the test is made by another process before the first try.
ensure_raced_example :
    ensure service (λ s. (codes "/new", codes "file") ∷ s) 1000 (codes "/new") (codes "file") world
    ≡ none
ensure_raced_example =
    ensure_raced service_laws (λ s. (codes "/new", codes "file") ∷ s) 1000 (codes "/new")
      (codes "file") world refl refl

ensure_alone_example :
    (w' : World service) × (ensure service (λ s. s) 1 (b'/' ∷ codes "new") (codes "file") world
      ≡ some w')
    × (lookup w'.store (codes "/new") ≡ some (codes "file"))
ensure_alone_example =
    ensure_alone service_laws (λ s. s) 0 (codes "new") (codes "file") world
      (lacks b'/' (codes "new") refl) refl

-- If the nodes of a path hold w_ where they begin with w, then so does what is found there.
lookup-Commanded :
    (s : Nodes) (q : Bytes)
    → All (λ e. bytes_eq e.0 q ≡ true → Commanded (some e.1)) s
    → Commanded (lookup s q)
lookup-Commanded [] q h = λ e. absurd (omega (arith, e))
lookup-Commanded ((p, d) ∷ s) q h = elim (Bool-cases (bytes_eq p q)) [
  | inl here ↦ rw here (h.0 here)
  | inr there ↦ rw there (lookup-Commanded s q h.1)
]

-- Nodes that hold w_ where they begin with w.
each_Commanded :
    (q : Bytes) (s : Nodes)
    → all
        (λ e.
          if first e.1 == b'w'
          then (if get_or e.1 1 0 == b'_' then true else not (bytes_eq e.0 q))
          else true)
        s
      ≡ true
    → All (λ e. bytes_eq e.0 q ≡ true → Commanded (some e.1)) s
each_Commanded q [] h = tt
each_Commanded q ((p, d) ∷ s) h = (λ here begins. ground arith, each_Commanded q s (ground arith))

-- The worker b had file 7 in work and is no longer in the election.
recover-loses_work_example :
    (w' : World service) × (recover service (codes "m") world ≡ some w')
    × (lookup w'.store (codes "/works/b") ≡ none)
    × (lookup w'.store (codes "/files/7") ≡ some (codes "y"))
unfolding child
recover-loses_work_example =
    recover-loses_work service_laws (codes "m") world (codes "proc-2" ∷ codes "proc-1" ∷ [])
      (codes "m" ∷ codes "a" ∷ []) (codes "m" ∷ codes "a" ∷ codes "b" ∷ codes "c" ∷ []) (codes "b")
      (codes "7") refl refl
      (refl, (omega arith, (omega arith, tt)), (refl, (omega arith, (omega arith, tt)), tt))
      names_Distinct ((refl, refl), ((refl, refl), ((refl, refl), ((refl, refl), tt))))
      (λ k.
        lookup-Commanded cluster (child g_path_works k)
          (each_Commanded (child g_path_works k) cluster refl))
      (inr (inr (inl refl))) (unlike refl) (unlike refl, omega arith)
