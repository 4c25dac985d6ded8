-- ===== src/Examples/Reader.antt =====
-- The theorem about _read_csv/read_csv.cpp, applied: three lines of task 7, and two lines in a block.
use distributed_task_dispath.Prelude.{true, List, [], ◌∷◌, ◌++◌, some, sum, ◌≡◌, refl, arith}
use distributed_task_dispath.Prelude.Int.{pos}
use distributed_task_dispath.Bytes.{Bytes, codes, find}
use distributed_task_dispath.Recovery.Opened.{joined}
use distributed_task_dispath.Tendis.{Tendis}
use distributed_task_dispath.Reader.{insert_to_redis, has_id}
use distributed_task_dispath.Reader.Load.{ReadCsv, defaults, set_loop_num, load_tasks, members_from}
use distributed_task_dispath.Reader.Load.Once.{is_task, load-each_once}
use distributed_task_dispath.Examples.ThreadPool.{ended-Reach}
use distributed_task_dispath.Reader.Stored.{lines_of, Filled, store_blocks, insert_to_redis-stores}

-- The commands that came, the last first.
abbrev db : Tendis
db = record { Data = List Bytes; command = λ cmd d. (some (some (codes "OK")), cmd ∷ d) }

abbrev lines : List Bytes
lines =
    (codes "7,1,a" ++ 10 ∷ [])
    ∷ (codes "8,2,b" ++ 10 ∷ [])
    ∷ (codes "7,3,c" ++ 10 ∷ [])
    ∷ (codes "7,4,d" ++ 10 ∷ [])
    ∷ []

insert_to_redis-stores_example :
    (blocks : List (List Bytes)) × (insert_to_redis db (pos 0) 2 (pos 7) lines []
      ≡ some (store_blocks db (pos 0) 2 (pos 7) 1 blocks []))
    × (joined blocks ≡ lines_of (pos 7) lines)
    × Filled 2 blocks
unfolding has_id find
insert_to_redis-stores_example =
    insert_to_redis-stores db (pos 0) 2 (pos 7) lines [] (omega arith) refl

-- The first three tasks have lines, and so has the fourth, which `load` does not come to.
abbrev three_tasks : ReadCsv
three_tasks =
    set_loop_num 3 (record defaults { is_member_of_task = true ∷ true ∷ true ∷ true ∷ [] })

load-each_once_example : sum (is_task 2) (0 ∷ 1 ∷ 2 ∷ []) ≡ 1
unfolding load_tasks members_from
load-each_once_example =
    load-each_once three_tasks 2 (omega arith) (ended-Reach 0 1 2) (omega arith) refl refl
