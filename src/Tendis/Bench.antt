-- ===== src/Tendis/Bench.antt =====
-- _tendis_server/main.cpp: a run of queries that is timed, and two keys that are stored and read.
use distributed_task_dispath.Prelude.{ℕ, zero, suc, List, [], ◌∷◌, ◌++◌}
use distributed_task_dispath.Bytes.{Bytes, codes}
use distributed_task_dispath.Bytes.Decimal.{to_string}
use distributed_task_dispath.Tendis.{Tendis, redis_insert, redis_select}

module _ (db : Tendis) where
  -- The loop from `i` on, `left` rounds.
  unfoldable pub bench : ℕ → ℕ → db.Data → db.Data
  unfolding redis_select
  bench zero i d = d
  bench (suc left) i d = bench left (suc i) (redis_select db (codes "get 1_" ++ to_string i) d).1

  -- `work`: what it prints behind the number of the process.
  unfoldable pub work : db.Data → List Bytes × db.Data
  unfolding redis_insert redis_select
  work d =
      let d1 = redis_insert db (codes "mset stest10 value10 stest11 value11") d in
      let (first_value, d2) = redis_select db (codes "get stest10") d1 in
      let (second_value, d3) = redis_select db (codes "get stest11") d2 in
      (first_value ∷ second_value ∷ [], d3)

  -- `main`, without the clock.
  unfoldable pub main : db.Data → List Bytes × db.Data
  unfolding bench work
  main d = work (bench 50000 1 d)
