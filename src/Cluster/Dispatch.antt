-- ===== src/Cluster/Dispatch.antt =====
-- `calc_dest_no` and `dispatch_work` of _zk_server/clust_comm.cpp: the monitor hands the files
-- that wait ("r") to the workers that are idle ("s"). `none` is a run that does not return: an
-- exception of `stoi`, an overflow, or a vector that a failed call left unset.
pub mod Loops
pub mod Pairing
pub mod Whole
pub mod Nodes
pub mod Watched
use distributed_task_dispath.Prelude.{
  ℕ, zero, suc, ◌+◌, ◌-◌, ◌%◌, ◌*◌, Bool, true, false, not, ◌&&◌, List, [], ◌∷◌, ◌++◌, Option, none,
  some, ltb, leb, ◌==◌, if◌then◌else◌, ◌>>=◌,
}
use distributed_task_dispath.Prelude.Int.{ℤ, pos, negsuc, neg}
use distributed_task_dispath.Bytes.{Bytes, codes, bytes_eq}
use distributed_task_dispath.Bytes.Decimal.{stoi, to_string_int, int_max}
use distributed_task_dispath.Zookeeper.{
  Zookeeper, World, Buffer, zeroed, first, pad, zoo_get, zoo_get_children, zoo_set, sleep,
}
use distributed_task_dispath.Cluster.Paths.{g_path_files, g_path_works, child}

-- `(n + 4) % 5` on int: the remainder has the sign of the sum.
unfoldable pub dest_of : ℤ → Option ℤ
dest_of (pos n) = if leb (n + 4) int_max then some (pos ((n + 4) % 5)) else none
dest_of (negsuc n) = if ltb n 4 then some (pos ((3 - n) % 5)) else some (neg ((n - 3) % 5))

unfoldable pub calc_dest_no : Bytes → Option Bytes
unfolding dest_of
calc_dest_no fileno = do n ← stoi fileno; d ← dest_of n; some (to_string_int d)

-- The text of `wk_con`, "w_<file>_<dest>".
unfoldable pub wk_command : Bytes → Option Bytes
unfolding calc_dest_no
wk_command fl = do dest ← calc_dest_no fl; some (codes "w_" ++ fl ++ codes "_" ++ dest)

abbrev pub stop_command : Bytes
stop_command = codes "w_-1"

module _ (zk : Zookeeper) (localhost : Bytes) where
  -- The test on a worker that was read: it waits for work, and is not the monitor itself.
  abbrev pub is_idle : Buffer → Bytes → Bool
  is_idle wk_st wk = first wk_st.bytes == b's' && not (bytes_eq localhost wk)

  -- The loop over `i_wks` for one file. The workers that come back begin with the one that took
  -- the file, where `break` leaves `i_wks`; there are none if no worker is idle.
  unfoldable pub offer :
      Bytes → List Bytes → Buffer → World zk → Option (List Bytes × Buffer × World zk)
  offer fl [] wk_st w = some ([], wk_st, w)
  offer fl (wk ∷ wks) wk_st w =
      let wkno_path = child g_path_works wk in
      let (ret, wk_st', w') = zoo_get zk true wkno_path wk_st w in
      let later = offer fl wks wk_st' w' in
      if is_idle wk_st' wk
      then (do
        wk_con ← wk_command fl
        some (wk ∷ wks, wk_st', sleep zk 10 (zoo_set zk wkno_path (pad 512 wk_con) w')))
      else later

  -- The loop over `i_fls`; the first result is whether it came to the end of the files.
  unfoldable pub assign :
      List Bytes
      → List Bytes
      → Buffer
      → Buffer
      → World zk
      → Option (Bool × List Bytes × Buffer × World zk)
  unfolding offer
  assign [] wks fl_st wk_st w = some (true, wks, wk_st, w)
  assign (fl ∷ fls) wks fl_st wk_st w =
      let (ret, fl_st', w1) = zoo_get zk false (child g_path_files fl) fl_st w in
      elim (first fl_st'.bytes == b'r') [
        | false ↦ assign fls wks fl_st' wk_st w1
        | true ↦ elim (offer fl wks wk_st w1) [
          | none ↦ none
          | some (wks', wk_st', w2) ↦ elim wks' [
            | [] ↦ some (false, [], wk_st', w2)
            | wk ∷ rest ↦ assign fls (wk ∷ rest) fl_st' wk_st' w2
          ]
        ]
      ]

  -- The loop that tells the idle workers that are left to stop.
  unfoldable pub stop_rest : List Bytes → Buffer → World zk → World zk
  stop_rest [] wk_st w = w
  stop_rest (wk ∷ wks) wk_st w =
      let wkno_path = child g_path_works wk in
      let (ret, wk_st', w') = zoo_get zk true wkno_path wk_st w in
      stop_rest wks wk_st'
        (if is_idle wk_st' wk then zoo_set zk wkno_path (pad 512 stop_command) w' else w')

  unfoldable pub dispatch_work : World zk → Option (World zk)
  unfolding assign stop_rest
  dispatch_work w =
      let (fls, w1) = zoo_get_children zk false g_path_files w in
      let (wks, w2) = zoo_get_children zk true g_path_works w1 in
      do
        fls' ← fls
        wks' ← wks
        done ← assign fls' wks' (zeroed 64) (zeroed 64) w2
        some (if done.0 then stop_rest done.1 done.2 done.3 else done.3)
