-- ===== src/Examples/Starts.antt =====
-- The theorems on the name and on the start of a process, applied to the service of the examples.
use distributed_task_dispath.Prelude.{
  leb, all, not, map, some_inj, ◌≤◌, take, true, [], ◌∷◌, ◌++◌, Option, some, ◌≡◌, ◌≢◌, refl, inl,
  inr, arith, ◌==◌, length, All, In, subst,
}
use distributed_task_dispath.Bytes.{Bytes, codes}
use distributed_task_dispath.Zookeeper.{World, mode_worker, mode_monitor, on_children, pad}
use distributed_task_dispath.Bytes.{strcmp_gt}
use distributed_task_dispath.Bytes.Decimal.{to_string}
use distributed_task_dispath.Cluster.Paths.{g_path_elect, g_path_works, child}
use distributed_task_dispath.Cluster.Localhost.{get_ip, getlocalhost}
use distributed_task_dispath.Cluster.Localhost.Fits.{IsAddress, getlocalhost-fits}
use distributed_task_dispath.Cluster.Watcher.{prework}
use distributed_task_dispath.Cluster.Watcher.Joined.{Asks, prework-joins}
use distributed_task_dispath.Cluster.Watcher.Elected.{behind}
use distributed_task_dispath.Cluster.Watcher.Registered.{Registered}
use distributed_task_dispath.Examples.Cluster.{unlike, lacks}
use distributed_task_dispath.Examples.Service.{Nodes, service}
use distributed_task_dispath.Examples.Joining.{service_joining}
use distributed_task_dispath.Cluster.Watcher.Succession.{
  IsName, starts, AllIdle, starts-mode_monitor,
}

-- One process is at work, and the next one starts.
abbrev one_at_work : World service
one_at_work = record {
  store =
      (g_path_elect, codes "elct")
      ∷ (g_path_works, codes "work")
      ∷ (child g_path_elect (codes "proc-0"), take 24 (pad 512 (codes "10.0.0.1:7")))
      ∷ (child g_path_works (codes "10.0.0.1:7"), codes "s")
      ∷ [];
  watches = [];
  g_mode = mode_worker;
}

prework-joins_example :
    (w' : World service) × (prework service (codes "10.0.0.2:8") (λ s. s) 1 one_at_work ≡ some w')
    × Registered service_joining one_at_work.store
        (codes "10.0.0.2:8")
        (codes "proc-0" ∷ [])
        (codes "10.0.0.1:7" ∷ [])
        w'.store
    × (w'.g_mode ≡ mode_worker)
    × In (on_children g_path_elect) w'.watches
    × Asks service_joining (codes "10.0.0.2:8") (codes "10.0.0.1:7" ∷ []) w' mode_worker
unfolding child strcmp_gt
prework-joins_example =
    prework-joins service_joining (codes "10.0.0.2:8") (codes "proc-0" ∷ [])
      (codes "10.0.0.1:7" ∷ []) mode_worker 1 one_at_work (omega arith)
      (lacks 0 (codes "10.0.0.2:8") refl) (lacks b'/' (codes "10.0.0.2:8") refl)
      (record { elect = refl; works = refl; below_elect = refl; below_works = refl; new = refl })
      (behind (codes "proc-0") (codes "10.0.0.1:7") (inl refl) (refl, (refl, tt)) refl (omega arith)
        (lacks 0 (codes "10.0.0.1:7") refl) (unlike refl))

abbrev device_ip : Bytes → Option Bytes
device_ip d = some (codes "10.0.0.1")

address : IsAddress (codes "10.0.0.1")
address = record {
  short = omega arith;
  text = (
    inl (omega arith, omega arith),
    (
      inl (omega arith, omega arith),
      (
        inr refl,
        (
          inl (omega arith, omega arith),
          (
            inr refl,
            (inl (omega arith, omega arith), (inr refl, (inl (omega arith, omega arith), tt))),
          ),
        ),
      ),
    ),
  );
}

getlocalhost-fits_example :
    (getlocalhost device_ip 4321 512
      ≡ (get_ip device_ip (codes "eth" ∷ []) []).1 ++ codes ":" ++ to_string 4321)
    × (length (getlocalhost device_ip 4321 512) ≤ 24)
    × All (λ c. (c ≢ 0) × (c ≢ b'/')) (getlocalhost device_ip 4321 512)
getlocalhost-fits_example =
    getlocalhost-fits device_ip (λ d ip e. subst IsAddress (some_inj e) address) 4321 (omega arith)

-- Nobody is at work, and three processes start.
abbrev quiet : Nodes
quiet = (g_path_elect, codes "elct") ∷ (g_path_works, codes "work") ∷ []

named :
    (p : Bytes)
    → leb (length p) 24 ≡ true
    → all (λ x. not (x == 0)) p ≡ true
    → all (λ x. not (x == b'/')) p ≡ true
    → IsName p
named p short text plain = record {
  short = ground arith;
  text = lacks 0 p text;
  plain = lacks b'/' p plain;
}

starts-mode_monitor_example :
    (t : service.Store) × (starts service 1
        (codes "10.0.0.1:7" ∷ codes "10.0.0.2:8" ∷ codes "10.0.0.3:9" ∷ [])
        quiet
      ≡ some
          (mode_monitor ∷ map (λ _. mode_worker) (codes "10.0.0.2:8" ∷ codes "10.0.0.3:9" ∷ []), t))
    × AllIdle service_joining t (codes "10.0.0.1:7" ∷ codes "10.0.0.2:8" ∷ codes "10.0.0.3:9" ∷ [])
unfolding child
starts-mode_monitor_example =
    starts-mode_monitor service_joining 1 quiet (codes "10.0.0.1:7")
      (codes "10.0.0.2:8" ∷ codes "10.0.0.3:9" ∷ []) [] refl refl refl refl
      (refl, (refl, (refl, tt)))
      (
        named (codes "10.0.0.1:7") refl refl refl,
        (
          named (codes "10.0.0.2:8") refl refl refl,
          (named (codes "10.0.0.3:9") refl refl refl, tt),
        ),
      )
      ((unlike refl, (unlike refl, tt)), ((unlike refl, tt), (tt, tt)))
