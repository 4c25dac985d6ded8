-- ===== src/Examples/Work.antt =====
-- The theorems about work.cpp, applied: worker a is told to work on the file of task 3.
use distributed_task_dispath.Prelude.{ℕ, zero, suc, ◌+◌, [], ◌∷◌, some, ◌≡◌, refl, arith}
use distributed_task_dispath.Prelude.Int.{ℤ, pos, negsuc}
use distributed_task_dispath.Bytes.{Bytes, codes, find, rfind, substr_between}
use distributed_task_dispath.Bytes.Decimal.{to_string}
use distributed_task_dispath.Zookeeper.{World, mode_worker, pad}
use distributed_task_dispath.Cluster.Paths.{child}
use distributed_task_dispath.Cluster.Worker.{recv_work}
use distributed_task_dispath.Cluster.Dispatch.Loops.{sent}
use distributed_task_dispath.Work.{Tools, cmd_file, do_task}
use distributed_task_dispath.Work.Command.{Reads, received-Reads}
use distributed_task_dispath.Work.Round.Nodes.{do_task-nodes}
use distributed_task_dispath.Examples.Service.{lookup, service, service_laws}

-- A cluster in which the node of worker a holds a command.
abbrev world : Bytes → World service
world cmd = record {
  store =
      (codes "/files", codes "file")
      ∷ (codes "/files/3", codes "r")
      ∷ (codes "/works/a", pad 512 cmd)
      ∷ [];
  watches = [];
  g_mode = mode_worker;
}

abbrev pub first_fails : ℕ → ℤ
first_fails zero = negsuc 0
first_fails (suc d) = pos 0

-- The recovery succeeds at the second try; the disk counts what is done to it.
abbrev pub tools : Tools
tools = record {
  Disk = ℕ;
  csv_recovery = λ task d. (first_fails d, d + 1);
  deltask = λ d. d + 10;
  send_file = λ target path d. d + 100;
}

received-Reads_example : Reads (recv_work service (codes "a") (world (sent (to_string 3)))).0 3
unfolding child
received-Reads_example =
    received-Reads service_laws (codes "a") (world (sent (to_string 3))) 3 (omega arith) refl

-- No try succeeds.
abbrev no_luck : Tools
no_luck = record tools { csv_recovery = λ task d. (negsuc 0, d + 1) }

do_task-nodes_example :
    (w' : World service) × (d' : ℕ) × (do_task service no_luck
        (codes "a")
        (λ s. s)
        1
        (codes "w_3_2")
        (pos 3)
        (world (codes "w_3_2"))
        0
      ≡ some (w', d'))
    × (lookup w'.store (codes "/files/3") ≡ some (codes "y"))
    × (lookup w'.store (codes "/works/a") ≡ some (pad 512 (codes "w_3_2")))
unfolding child cmd_file substr_between rfind find
do_task-nodes_example =
    do_task-nodes service_laws no_luck (codes "a") 1 (codes "w_3_2") (codes "3") (codes "r")
      (pad 512 (codes "w_3_2")) (pos 3) (world (codes "w_3_2")) 0 (λ n s p. refl) refl refl refl
      refl
