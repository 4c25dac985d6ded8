-- ===== src/Tendis/Connection.antt =====
-- How `redis_data` of _tendis_server/redis_op.cpp comes by its connection. The calls of hiredis-vip are
-- a parameter.
use distributed_task_dispath.Prelude.{ℕ, Bool, false, Option, none, some, not}
use distributed_task_dispath.Bytes.{Bytes}

-- `redisClusterContext` and the calls on it.
pub record Connector : Type 1 where
  pub Context : Type 0
  -- `redisClusterContextInit`; `none` is NULL, where the memory ran out.
  pub context_init : Option Context
  pub add_nodes : Bytes → Context → Context
  pub route_use_slots : Context → Context
  pub connect : Context → Context
  -- Whether `err` is set.
  pub err : Context → Bool

-- The members of the class.
pub record RedisData (c : Connector) : Type 0 where
  pub cc : Option c.Context
  pub node_num : ℕ

module _ (c : Connector) (nodes : Bytes) where
  open c use {Context, context_init, add_nodes, route_use_slots, connect, err}

  -- The three calls, which change nothing where the context is NULL.
  abbrev pub connected : Option Context → Option Context
  connected none = none
  connected (some context) = some (connect (route_use_slots (add_nodes nodes context)))

  -- `connect_init`.
  unfoldable pub connect_init : RedisData c → Bool × RedisData c
  connect_init rd =
      let cc = connected rd.cc in
      let failed : Bool = elim cc [ none ↦ false | some context ↦ err context ] in
      (not failed, record rd { cc = cc })

  -- The constructor, which drops what `connect_init` returns.
  unfoldable pub new_redis_data : RedisData c
  unfolding connect_init
  new_redis_data = (connect_init (record { cc = context_init; node_num = 6 })).1
