-- ===== src/Cluster/Recover.antt =====
-- `recover` and `reelect` of _zk_server/clust_comm.cpp: a new monitor gives up its own work and
-- clears away the workers that are no longer in the election. `none` is a run that goes on with a
-- vector which a failed call left unset.
pub mod Lost
pub mod Survivors
pub mod Own
pub mod Whole
use distributed_task_dispath.Prelude.{
  ℕ, ◌-◌, Bool, true, false, List, [], ◌∷◌, Option, none, some, ◌==◌, if◌then◌else◌, take, drop,
  length, replicate,
}
use distributed_task_dispath.Bytes.{Bytes, codes, bytes_eq, c_str}
use distributed_task_dispath.Zookeeper.{
  Zookeeper, World, Buffer, WorkMode, mode_monitor, mode_worker, zeroed, first, zoo_get,
  zoo_get_children, zoo_set, zoo_delete,
}
use distributed_task_dispath.Cluster.Paths.{g_path_elect, g_path_works, g_path_files, child}
use distributed_task_dispath.Cluster.Elect.{choose_mater}

-- `set<string>`: only whether a text is in it is asked.
abbrev pub member : Bytes → List Bytes → Bool
member s [] = false
member s (t ∷ ts) = if bytes_eq t s then true else member s ts

module _ (zk : Zookeeper) (localhost : Bytes) where
  -- The process hands its own file back, if its node holds a command.
  unfoldable pub give_up_own : World zk → World zk
  unfolding zoo_get zoo_set
  give_up_own w =
      let work_path = child g_path_works localhost in
      let (ret, wk_cont, w1) = zoo_get zk true work_path (zeroed 64) w in
      let wk_flno = c_str (drop 1 wk_cont.bytes) in
      if first wk_cont.bytes == b'w'
      then zoo_set zk work_path (codes "s") (zoo_set zk (child g_path_files wk_flno) (codes "r") w1)
      else w1

  -- The loop that reads the names in the election. The array is cleared before each read, and
  -- `ip_pid_len` is not.
  unfoldable pub read_elect : List Bytes → ℕ → List Bytes → World zk → List Bytes × World zk
  unfolding zoo_get
  read_elect [] ip_pid_len dct w = (dct, w)
  read_elect (p ∷ procs) ip_pid_len dct w =
      let (ret, ip_pid, w') =
        zoo_get zk false (child g_path_elect p)
          (record { bytes = replicate 64 0; len = ip_pid_len }) w in
      read_elect procs ip_pid.len (take ip_pid.len (c_str ip_pid.bytes) ∷ dct) w'

  -- One worker that is not in the election. The array is filled with the character 0 before the
  -- read, and `wks_st_len` keeps what the last read left in it.
  unfoldable pub clear_worker : Bytes → ℕ → World zk → ℕ × World zk
  unfolding zoo_get zoo_set zoo_delete
  clear_worker wk wks_st_len w =
      let wks_path = child g_path_works wk in
      let (ret, wks_st, w1) =
        zoo_get zk false wks_path (record { bytes = replicate 64 b'0'; len = wks_st_len }) w in
      let wk_flno = c_str (take (wks_st.len - 1) (drop 1 wks_st.bytes)) in
      let w2 =
        (if first wks_st.bytes == b'w'
          then zoo_set zk (child g_path_files wk_flno) (codes "r") w1
          else w1) in
      (wks_st.len, (zoo_delete zk wks_path w2).0)

  unfoldable pub clear_workers : List Bytes → List Bytes → ℕ → World zk → World zk
  unfolding clear_worker
  clear_workers dct [] wks_st_len w = w
  clear_workers dct (wk ∷ wks) wks_st_len w = elim (member wk dct) [
    | true ↦ clear_workers dct wks wks_st_len w
    | false ↦ let (len, w') = clear_worker wk wks_st_len w in clear_workers dct wks len w'
  ]

  unfoldable pub recover : World zk → Option (World zk)
  unfolding give_up_own read_elect clear_workers zoo_get_children
  recover w =
      let (procs, w1) = zoo_get_children zk true g_path_elect (give_up_own w) in
      elim procs [
        | none ↦ none
        | some ps ↦
            let (dct, w2) = read_elect ps 64 [] w1 in
            let (wks, w3) = zoo_get_children zk true g_path_works w2 in
            elim wks [ none ↦ none | some ks ↦ some (clear_workers dct ks 64 w3) ]
      ]

  -- The body behind the test of `reelect`.
  unfoldable pub take_over : Option (World zk) → Option (World zk)
  unfolding recover
  take_over none = none
  take_over (some w) = elim w.g_mode [ mode_monitor ↦ recover w | mode_worker ↦ some w ]

  unfoldable pub reelect : World zk → Option (World zk)
  unfolding take_over choose_mater zoo_get_children
  reelect w =
      let (els, w1) = zoo_get_children zk true g_path_elect w in
      let (wks, w2) = zoo_get_children zk true g_path_works w1 in
      elim els [
        | none ↦ none
        | some es ↦ elim wks [
          | none ↦ none
          | some ks ↦
              if length es == length ks
              then some w2
              else take_over (choose_mater zk localhost g_path_elect w2)
        ]
      ]
