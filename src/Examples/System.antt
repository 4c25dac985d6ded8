-- ===== src/Examples/System.antt =====
-- The theorem about the processes together, applied: a file is inserted, and a worker does its work.
use distributed_task_dispath.Prelude.{[], ◌∷◌, refl}
use distributed_task_dispath.Bytes.{codes, find, rfind, substr_between, c_str}
use distributed_task_dispath.Bytes.Decimal.{atoi, to_string, to_string_int}
use distributed_task_dispath.Zookeeper.{
  World, mode_worker, on_data, pad, sleep, zoo_get, zoo_set, zoo_create, zoo_exists,
}
use distributed_task_dispath.Cluster.Paths.{child}
use distributed_task_dispath.Cluster.Files.{create_files, ensure, insr2clst, st}
use distributed_task_dispath.Cluster.Kept.{Keeps, keep_all}
use distributed_task_dispath.Cluster.Worker.{recv_work, set_wk_st}
use distributed_task_dispath.Work.{
  again, round, do_task, recover_twice, cmd_file, cmd_task, cmd_target,
}
use distributed_task_dispath.Work.System.{Reach, begin, later, inserts, rounds, Reach-Keeps}
use distributed_task_dispath.Examples.Service.{service, service_laws}
use distributed_task_dispath.Examples.Work.{tools}

-- File 7 is to be worked on by b.
abbrev before : World service
before = record {
  store =
      (codes "/files", codes "file")
      ∷ (codes "/files/7", codes "r")
      ∷ (codes "/works/b", pad 512 (codes "w_7_1"))
      ∷ [];
  watches = [];
  g_mode = mode_worker;
}

-- File 3 is there, 7 is done, and b is idle.
abbrev after : World service
after = record {
  store =
      (codes "/files/3", codes "r")
      ∷ (codes "/files", codes "file")
      ∷ (codes "/files/7", codes "g")
      ∷ (codes "/works/b", codes "s")
      ∷ [];
  watches = on_data (codes "/works/b") ∷ [];
  g_mode = mode_worker;
}

after-Reach :
    Reach service_laws tools
      (λ n s. keep_all service_laws s)
      (λ s. s)
      (λ s. keep_all service_laws s)
      before.store
      after.store
unfolding insr2clst zoo_create zoo_set zoo_get zoo_exists sleep child round do_task recover_twice
    recv_work set_wk_st st create_files ensure cmd_file cmd_task cmd_target find rfind
    substr_between atoi c_str to_string_int to_string
after-Reach =
    later (later begin (inserts (codes "3") before refl))
      (rounds (codes "b") 1 5 (insr2clst service (codes "3") before) after 0 112 again refl refl)

Reach-Keeps_example : Keeps service_laws before.store after.store
Reach-Keeps_example =
    Reach-Keeps service_laws tools (λ n s. keep_all service_laws s) (λ s. s)
      (λ s. keep_all service_laws s) after-Reach
