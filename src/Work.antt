-- ===== src/Work.antt =====
-- work.cpp: how a worker reads a command, and one round of its loop. The recovery of a file, the
-- script that clears the disk and the copy to another node are an interface, `Tools`.
pub mod Command
pub mod Round
pub mod Insert
pub mod SendFile
pub mod Program
pub mod System
use distributed_task_dispath.Prelude.{
  ℕ, zero, suc, ◌+◌, ◌%◌, Bool, true, false, List, [], ◌∷◌, ◌++◌, Option, none, some, ◌==◌,
  if◌then◌else◌, take, drop,
}
use distributed_task_dispath.Prelude.Int.{ℤ, pos, negsuc}
use distributed_task_dispath.Bytes.{Bytes, codes, find, rfind, substr_between}
use distributed_task_dispath.Bytes.Decimal.{atoi, to_string, to_string_int}
use distributed_task_dispath.Zookeeper.{
  Zookeeper, World, WorkMode, mode_monitor, mode_worker, first, sleep,
}
use distributed_task_dispath.Cluster.Files.{create_files, st}
use distributed_task_dispath.Cluster.Worker.{recv_work, set_wk_st}

-- `cmd.substr(beg + 1, end - beg - 1)`, the text between the first and the last `_`.
unfoldable pub cmd_file : Bytes → Bytes
cmd_file cmd = substr_between cmd (find b'_' cmd) (rfind b'_' cmd)

unfoldable pub cmd_task : Bytes → ℤ
unfolding cmd_file
cmd_task cmd = if first cmd == b'w' then atoi (cmd_file cmd) else pos 0

-- `atoi(cmd.substr(end + 1, 1))`.
unfoldable pub cmd_target : Bytes → ℤ
cmd_target cmd = atoi (take 1 (drop (rfind b'_' cmd) cmd))

-- `csv_recovery` (Recovery/Csv) gives 0 or -1, where its run is defined; `deltask` is ./deltask.sh.
pub record Tools : Type 1 where
  pub Disk : Type 0
  pub csv_recovery : ℤ → Disk → ℤ × Disk
  pub deltask : Disk → Disk
  pub send_file : ℤ → Bytes → Disk → Disk

abbrev pub is_int : ℕ → ℤ → Bool
is_int n (pos m) = m == n
is_int n (negsuc m) = false

abbrev pub is_minus_one : ℤ → Bool
is_minus_one (pos m) = false
is_minus_one (negsuc m) = m == 0

-- What the loop does after a round: `break` leaves it.
pub data Next : Type 0 where
  again leave : Next

module _ (zk : Zookeeper) (tools : Tools) (localhost : Bytes) where
  open tools use {Disk, csv_recovery, deltask, send_file}

  -- `csv_recovery`, once more after a minute if it gave -1.
  unfoldable pub recover_twice : ℤ → World zk → Disk → ℤ × World zk × Disk
  unfolding sleep
  recover_twice task w d =
      let (ret, d1) = csv_recovery task d in
      let (ret2, d2) = csv_recovery task d1 in
      if is_minus_one ret then (ret2, sleep zk 60 w, d2) else (ret, w, d1)

  -- The work on one file: from `pre_clst` to `fin_clst`, with the node under /files of its own.
  unfoldable pub do_task :
      (zk.Store → zk.Store) → ℕ → Bytes → ℤ → World zk → Disk → Option (World zk × Disk)
  unfolding recover_twice create_files st set_wk_st
  do_task others fuel cmd task w d = elim (create_files zk others fuel w) [
    | none ↦ none
    | some w1 ↦
        let (ret, w2, d1) = recover_twice task (st zk (cmd_file cmd) (codes "y") w1) d in
        some (
          if is_int 0 ret
          then (
            set_wk_st zk localhost (st zk (cmd_file cmd) (codes "g") w2),
            send_file (cmd_target cmd) (to_string_int task ++ codes ".csv") (deltask d1),
          )
          else (w2, d1))
  ]

  -- One round of the loop of `work`. `nap` is `rand() % 5 + 5`.
  unfoldable pub round :
      (zk.Store → zk.Store) → ℕ → ℕ → World zk → Disk → Option (Next × World zk × Disk)
  unfolding do_task recv_work sleep
  round others fuel nap w d = elim w.g_mode [
    | mode_monitor ↦ some (again, w, d)
    | mode_worker ↦
        let (cmd, w1) = recv_work zk localhost w in
        let w2 = sleep zk (if first cmd == b'w' then 10 else nap) w1 in
        elim (cmd_task cmd) [
          | pos n ↦ elim n [
            | zero ↦ some (again, w2, d)
            | suc m ↦ elim (do_task others fuel cmd (pos (suc m)) w2 d) [
              | none ↦ none
              | some (w3, d1) ↦ some (again, sleep zk nap w3, d1)
            ]
          ]
          | negsuc n ↦ some (if n == 0 then leave else again, w2, d)
        ]
  ]
