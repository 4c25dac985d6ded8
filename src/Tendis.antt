-- ===== src/Tendis.antt =====
-- _tendis_server/redis_op.cpp: `redis_data` over the client of the cluster (hiredis-vip), which is a
-- parameter.
pub mod Connection
pub mod Bench
pub mod KeyValue
use distributed_task_dispath.Prelude.{Option, none, some, []}
use distributed_task_dispath.Bytes.{Bytes, codes}

-- `redisClusterCommand`: no reply, or a reply whose `str` may be missing; and what it stores.
pub record Tendis : Type 1 where
  pub Data : Type 0
  pub command : Bytes → Data → Option (Option Bytes) × Data

-- What `redis_select` makes of a reply.
abbrev pub shown_reply : Option (Option Bytes) → Bytes
shown_reply none = codes "error"
shown_reply (some none) = []
shown_reply (some (some str)) = str

module _ (db : Tendis) where
  unfoldable pub redis_insert : Bytes → db.Data → db.Data
  redis_insert cmd data_now = (db.command cmd data_now).1

  unfoldable pub redis_select : Bytes → db.Data → Bytes × db.Data
  redis_select cmd data_now =
      let (re, data_then) = db.command cmd data_now in (shown_reply re, data_then)
