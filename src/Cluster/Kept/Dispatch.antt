-- ===== src/Cluster/Kept/Dispatch.antt =====
-- A dispatch keeps the files.
use distributed_task_dispath.Prelude.{
  ℕ, Bool, true, false, List, [], ◌∷◌, Option, none, some, ◌==◌, if◌then◌else◌, ◌>>=◌,
}
use distributed_task_dispath.Bytes.{Bytes}
use distributed_task_dispath.Zookeeper.{
  Zookeeper, World, Buffer, zeroed, first, pad, zoo_get, zoo_get_children, zoo_set, sleep,
}
use distributed_task_dispath.Zookeeper.Laws.{Laws}
use distributed_task_dispath.Cluster.Paths.{g_path_files, g_path_works, child, works_ne_files}
use distributed_task_dispath.Cluster.Dispatch.{
  wk_command, stop_command, is_idle, offer, assign, stop_rest, dispatch_work,
}
use distributed_task_dispath.Cluster.Kept.{
  left, Keeps, keep_all, both, set_other, Ends, if_Ends, bind_Ends, later_Ends, case_Ends,
}

module _ {zk : Zookeeper} (laws : Laws zk)
    (calm : (n : ℕ) (s : zk.Store) → Keeps laws s (zk.meanwhile n s)) (localhost : Bytes) where
  set_worker : (s : zk.Store) (wk d : Bytes) → Keeps laws s (zk.set s (child g_path_works wk) d).0
  set_worker s wk d = set_other laws s (child g_path_works wk) d (λ f. works_ne_files wk f)

  offer-Keeps :
      (fl : Bytes) (wks : List Bytes) (b : Buffer) (w : World zk)
      → Ends laws (λ r. r.2.store) w.store (offer zk localhost fl wks b w)
  unfolding offer zoo_get zoo_set sleep
  offer-Keeps fl [] b w = keep_all laws w.store
  offer-Keeps fl (wk ∷ wks) b w =
      let (ret, b1, w1) = zoo_get zk true (child g_path_works wk) b w in
      if_Ends laws (λ r. r.2.store) w.store (is_idle zk localhost b1 wk) _ _
        (bind_Ends laws (λ r. r.2.store) w.store (wk_command fl) _
          (λ wk_con. both laws (set_worker w.store wk (pad 512 wk_con)) (calm 10 _)))
        (offer-Keeps fl wks b1 w1)

  after_offer :
      (fls : List Bytes) (b1 : Buffer) (s : zk.Store) (o : Option (List Bytes × Buffer × World zk))
      → ((wks : List Bytes) (b : Buffer) (v : World zk)
          → Ends laws (λ r. r.3.store) v.store (assign zk localhost fls wks b1 b v))
      → Ends laws (λ r. r.2.store) s o
      → Ends laws {X = Bool × List Bytes × Buffer × World zk}
          (λ r. r.3.store)
          s
          (elim o [
            | none ↦ none
            | some (wks', wk_st', w2) ↦ elim wks' [
              | [] ↦ some (false, [], wk_st', w2)
              | wk ∷ rest ↦ assign zk localhost fls (wk ∷ rest) b1 wk_st' w2
            ]
          ])
  after_offer fls b1 s none ih h = tt
  after_offer fls b1 s (some ([], wk_st', w2)) ih h = h
  after_offer fls b1 s (some (wk ∷ rest, wk_st', w2)) ih h =
      later_Ends laws (λ r. r.3.store) s w2.store _ h (ih (wk ∷ rest) wk_st' w2)

  assign-Keeps :
      (fls wks : List Bytes) (fl_st wk_st : Buffer) (w : World zk)
      → Ends laws (λ r. r.3.store) w.store (assign zk localhost fls wks fl_st wk_st w)
  unfolding assign zoo_get
  assign-Keeps [] wks fl_st wk_st w = keep_all laws w.store
  assign-Keeps (fl ∷ fls) wks fl_st wk_st w =
      let (ret, b1, w1) = zoo_get zk false (child g_path_files fl) fl_st w in
      case_Ends laws (λ r. r.3.store) w.store (first b1.bytes == b'r') _ _
        (assign-Keeps fls wks b1 wk_st w1)
        (after_offer fls b1 w.store (offer zk localhost fl wks wk_st w1)
          (λ wks' b v. assign-Keeps fls wks' b1 b v) (offer-Keeps fl wks wk_st w1))

  stop_rest-Keeps :
      (wks : List Bytes) (b : Buffer) (w : World zk)
      → Keeps laws w.store (stop_rest zk localhost wks b w).store
  unfolding stop_rest zoo_get zoo_set
  stop_rest-Keeps [] b w = keep_all laws w.store
  stop_rest-Keeps (wk ∷ wks) b w =
      let (ret, b1, w1) = zoo_get zk true (child g_path_works wk) b w in
      both laws (by_test (is_idle zk localhost b1 wk) w1) (stop_rest-Keeps wks b1 _)
    where
      by_test :
          (b : Bool) (v : World zk)
          → Keeps laws v.store
              (if b then zoo_set zk (child g_path_works wk) (pad 512 stop_command) v else v).store
      by_test true v = set_worker v.store wk (pad 512 stop_command)
      by_test false v = keep_all laws v.store

  after_assign :
      (s : zk.Store) (o : Option (Bool × List Bytes × Buffer × World zk))
      → Ends laws (λ r. r.3.store) s o
      → Ends laws (left laws) s (
          o >>= λ done.
          some (if done.0 then stop_rest zk localhost done.1 done.2 done.3 else done.3))
  after_assign s none h = tt
  after_assign s (some (true, wks, b, w)) h = both laws h (stop_rest-Keeps wks b w)
  after_assign s (some (false, wks, b, w)) h = h

  pub dispatch_work-Keeps :
      (w : World zk) → Ends laws (left laws) w.store (dispatch_work zk localhost w)
  unfolding dispatch_work zoo_get_children
  dispatch_work-Keeps w =
      let w2 : World zk = (zoo_get_children zk true g_path_works w).1 in
      bind_Ends laws (left laws) w.store (zk.get_children w.store g_path_files) _ (λ fls.
        bind_Ends laws (left laws) w.store (zk.get_children w.store g_path_works) _ (λ wks.
          after_assign w.store (assign zk localhost fls wks (zeroed 64) (zeroed 64) w2)
            (assign-Keeps fls wks (zeroed 64) (zeroed 64) w2)))
