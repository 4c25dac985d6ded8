-- ===== src/Work/SendFile/InRange.antt =====
-- The node that a command names is an index of the tables.
use distributed_task_dispath.Prelude.{
  ℕ, zero, suc, ◌+◌, ◌%◌, ◌≤◌, ◌<◌, [], ◌∷◌, ◌++◌, List, some, ◌≡◌, refl, arith, length,
}
use distributed_task_dispath.Bytes.{Bytes, codes}
use distributed_task_dispath.Bytes.Decimal.{int_max, to_string}
use distributed_task_dispath.Zookeeper.{Zookeeper, World, pad}
use distributed_task_dispath.Zookeeper.Laws.{Laws}
use distributed_task_dispath.Cluster.Paths.{g_path_works, child}
use distributed_task_dispath.Cluster.Dispatch.Loops.{sent}
use distributed_task_dispath.Cluster.Worker.{recv_work}
use distributed_task_dispath.Work.{cmd_target}
use distributed_task_dispath.Work.Command.{received-Reads}
use distributed_task_dispath.Work.SendFile.{Passwords, node_ip, user, passwd, dest, at, send_file}

in_range : (xs : List Bytes) (n : ℕ) → n < length xs → (x : Bytes) × (at xs n ≡ some x)
in_range [] n h = absurd (omega arith)
in_range (x ∷ xs) zero h = (x, refl)
in_range (x ∷ xs) (suc n) h = in_range xs n (omega arith)

module _ {zk : Zookeeper} (laws : Laws zk) where
  -- If a worker's node holds what the monitor sends for the file of task `t`, and `t + 4` is an int,
  -- then the node that the worker copies the result to is in the range of the four tables of
  -- send_file, whatever the passwords are: it reads no table outside its bounds, and the command
  -- that it runs names the address, the user, the password and the place that stand at
  -- `(t + 4) % 5`, and the file.
  pub send_file-in_range :
      (passwords : Passwords) (localhost file_name : Bytes) (w : World zk) (t : ℕ)
      → t + 4 ≤ int_max
      → laws.node w.store (child g_path_works localhost) ≡ some (pad 512 (sent (to_string t)))
      → (ip : Bytes) × (name : Bytes) × (word : Bytes) × (place : Bytes) × (at node_ip ((t + 4) % 5)
          ≡ some ip)
        × (at user ((t + 4) % 5) ≡ some name)
        × (at (passwd passwords) ((t + 4) % 5) ≡ some word)
        × (at dest ((t + 4) % 5) ≡ some place)
        × (send_file passwords (cmd_target (recv_work zk localhost w).0) file_name
            ≡ some (
                codes "./autoscp.sh "
                ++ ip
                ++ codes " "
                ++ name
                ++ codes " "
                ++ word
                ++ codes " "
                ++ file_name
                ++ codes " "
                ++ place))
  unfolding send_file
  send_file-in_range passwords localhost file_name w t h e =
      let n : ℕ = (t + 4) % 5 in
      let (ip, ip_at) = in_range node_ip n (omega arith) in
      let (name, name_at) = in_range user n (omega arith) in
      let (word, word_at) = in_range (passwd passwords) n (omega arith) in
      let (place, place_at) = in_range dest n (omega arith) in
      let target = (received-Reads laws localhost w t h e).target in
      (
        ip,
        name,
        word,
        place,
        ip_at,
        name_at,
        word_at,
        place_at,
        rw (target, ip_at, name_at, word_at, place_at) refl,
      )
