-- ===== src/Cluster/Session/Opened.antt =====
-- When the loop that opens a session ends.
use distributed_task_dispath.Prelude.{ℕ, zero, suc, ◌+◌, ◌<◌, none, some, ◌≡◌, ap, ◌∙◌, arith}
use distributed_task_dispath.Zookeeper.{Zookeeper}
use distributed_task_dispath.Cluster.Session.{Sessions, init, open_session}

module _ {zk : Zookeeper} (sessions : Sessions zk) where
  open sessions use {Handle, zookeeper_init}

  -- If the calls before the one of number `from + tries` give NULL and that one gives a handle,
  -- then INIT, which begins with the call `from`, ends after `tries + 1` rounds with that handle,
  -- and has made no further call.
  init_first :
      (tries from : ℕ) (handle : Handle)
      → ((k : ℕ) → k < tries → zookeeper_init (from + k) ≡ none)
      → zookeeper_init (from + tries) ≡ some handle
      → init zk sessions (suc tries) from ≡ some (handle, suc (from + tries))
  unfolding init
  init_first zero from handle failed ok =
      let now : zookeeper_init from ≡ some handle =
        ap zookeeper_init {x = from} (omega arith) ∙ ok in
      rw (now, init, open_session) (ap (λ m. some (handle, suc m)) {x = from} (omega arith))
  init_first (suc tries) from handle failed ok =
      let now : zookeeper_init from ≡ none =
        ap zookeeper_init {x = from} (omega arith) ∙ failed 0 (omega arith) in
      let rest =
        init_first tries (suc from) handle
          (λ k h. ap zookeeper_init {x = suc from + k} (omega arith) ∙ failed (suc k) (omega arith))
          (ap zookeeper_init {x = suc from + tries} (omega arith) ∙ ok) in
      rw (now, init, open_session)
        (rest ∙ ap (λ m. some (handle, suc m)) {x = suc from + tries} (omega arith))
