-- ===== src/Cluster/Session.antt =====
-- The sessions of _zk_server/clust_comm.cpp: `INIT` and the first half of `pre_clst` open one, `CLOSE`
-- and `fin_clst` end it, and the handler of the file operations' session does nothing.
pub mod Opened
use distributed_task_dispath.Prelude.{ℕ, zero, suc, Bool, Option, none, some, ◌>>=◌}
use distributed_task_dispath.Bytes.{Bytes}
use distributed_task_dispath.Zookeeper.{Zookeeper, World, mode_worker}
use distributed_task_dispath.Cluster.Files.{create_files}
use distributed_task_dispath.Cluster.Watcher.{EventType}

-- What opens and ends a session: a parameter, like the client itself.
pub record Sessions (zk : Zookeeper) : Type 1 where
  pub Handle : Type 0
  -- The call of `zookeeper_init` with this number: `none` is NULL.
  pub zookeeper_init : ℕ → Option Handle
  -- The store after the end of the session: the nodes that are tied to it go.
  pub zookeeper_close : Handle → zk.Store → zk.Store

module _ (zk : Zookeeper) (sessions : Sessions zk) where
  open sessions use {Handle, zookeeper_init, zookeeper_close}

  -- The loop, from the call `n` on, and the number of the next call. `none` means that the fuel
  -- ran out.
  unfoldable pub open_session : ℕ → ℕ → Option (Handle × ℕ)
  open_session zero n = none
  open_session (suc fuel) n = elim (zookeeper_init n) [
    | some handle ↦ some (handle, suc n)
    | none ↦ open_session fuel (suc n)
  ]

  -- `INIT`: a handle for the session of `zktest_watcher_g`.
  unfoldable pub init : ℕ → ℕ → Option (Handle × ℕ)
  unfolding open_session
  init = open_session

  -- `CLOSE`.
  unfoldable pub close : Handle → World zk → World zk
  close handle w = record w { store = zookeeper_close handle w.store }

  -- `pre_clst`: a session for the file operations, and the node /files.
  unfoldable pub pre_clst :
      (zk.Store → zk.Store) → ℕ → ℕ → World zk → Option (Handle × ℕ × World zk)
  unfolding open_session create_files
  pre_clst others fuel n w = do
    (f_zkhandle, m) ← open_session fuel n
    w' ← create_files zk others fuel w
    some (f_zkhandle, m, w')

  -- `fin_clst`.
  unfoldable pub fin_clst : Handle → World zk → World zk
  unfolding close
  fin_clst = close

  -- The handler of that session's events, whose body is a comment.
  abbrev pub zktest_watcher_gfile : EventType → Bool → Bytes → World zk → World zk
  zktest_watcher_gfile type connected path w = w

-- `DEBUG`: its one call is a comment.
abbrev pub debug : {zk : Zookeeper} → World zk → World zk
debug w = w
