-- ===== src/Cluster/Dispatch/Pairing.antt =====
-- The loop over the files hands the waiting files, in order, to the idle workers, in order.
use mathlib.Core.Bool.{false≢true}
use distributed_task_dispath.Prelude.{
  ℕ, suc, ◌<◌, Bool, true, false, List, [], ◌∷◌, some, ◌≡◌, ◌≢◌, refl, sym, subst, inl, inr, arith,
  leb, length, drop, Bool-cases, keep, All, All-map, Distinct, ◌∙◌,
}
use distributed_task_dispath.Bytes.{Bytes, bytes_eq}
use distributed_task_dispath.Zookeeper.{Zookeeper, World, Buffer, fill, pad, zoo_get}
use distributed_task_dispath.Zookeeper.Laws.{Laws, status, fill-first}
use distributed_task_dispath.Cluster.Paths.{
  g_path_files, g_path_works, child, child_ne, works_ne_files,
}
use distributed_task_dispath.Cluster.Dispatch.{assign}
use distributed_task_dispath.Cluster.Dispatch.Loops.{
  Sendable, sent, sent-first, status-set_other, status-set_self, waits, idle, Working, handed,
  nobody, somebody, offer_lem,
}

-- Each file beside the worker that takes it.
abbrev pub deal : List Bytes → List Bytes → List (Bytes × Bytes)
deal [] wks = []
deal (fl ∷ fls) [] = []
deal (fl ∷ fls) (wk ∷ wks) = (fl, wk) ∷ deal fls wks

leb-suc : (a b : ℕ) → leb a b ≡ leb (suc a) (suc b)
leb-suc a b = ground arith

module _ {zk : Zookeeper} (laws : Laws zk) where
  -- While the monitor sleeps, the first byte of every node stays as it is.
  abbrev pub Calm : Type 0
  Calm = (n : ℕ) (s : zk.Store) (p : Bytes) → status laws (zk.meanwhile n s) p ≡ status laws s p

  -- The hand-overs of a list, one after the other.
  abbrev pub issue : List (Bytes × Bytes) → zk.Store → zk.Store
  issue [] s = s
  issue ((fl, wk) ∷ ps) s = issue ps (handed laws fl wk s)

  -- Every listed file has a node with data.
  abbrev pub Filed : zk.Store → List Bytes → Type 0
  Filed s = All (λ fl. 0 < status laws s (child g_path_files fl))

module _ {zk : Zookeeper} (laws : Laws zk) (calm : Calm laws) (localhost : Bytes) where
  status-handed_other :
      (fl wk : Bytes) (s : zk.Store) (q : Bytes)
      → bytes_eq (child g_path_works wk) q ≡ false
      → status laws (handed laws fl wk s) q ≡ status laws s q
  status-handed_other fl wk s q h =
      calm 10 _ q ∙ status-set_other laws s (child g_path_works wk) (pad 512 (sent fl)) q h

  status-handed_self :
      (fl wk : Bytes) (s : zk.Store)
      → Sendable fl
      → 0 < status laws s (child g_path_works wk)
      → status laws (handed laws fl wk s) (child g_path_works wk) ≡ b'w'
  status-handed_self fl wk s c there =
      calm 10 _ (child g_path_works wk)
      ∙ status-set_self laws s (child g_path_works wk) (pad 512 (sent fl)) there
      ∙ sent-first fl c

  handed-waits :
      (fl wk : Bytes) (s : zk.Store) (fls : List Bytes)
      → keep (waits laws (handed laws fl wk s)) fls ≡ keep (waits laws s) fls
  handed-waits fl wk s [] = refl
  handed-waits fl wk s (f ∷ fls) =
      rw (status-handed_other fl wk s _ (works_ne_files wk f), handed-waits fl wk s fls)

  handed-Filed :
      (fl wk : Bytes) (s : zk.Store) (fls : List Bytes)
      → Filed laws s fls
      → Filed laws (handed laws fl wk s) fls
  handed-Filed fl wk s fls =
      All-map _ _ fls λ f h. rw (status-handed_other fl wk s _ (works_ne_files wk f)) h

  handed_rest :
      (fl wk : Bytes) (s : zk.Store) (wks : List Bytes)
      → All (λ k. wk ≢ k) wks
      → Working laws s wks
      → (keep (idle laws localhost (handed laws fl wk s)) wks ≡ keep (idle laws localhost s) wks)
        × Working laws (handed laws fl wk s) wks
  handed_rest fl wk s [] d h = (refl, tt)
  handed_rest fl wk s (k ∷ wks) d h =
      let same = status-handed_other fl wk s (child g_path_works k) (child_ne _ wk k d.0) in
      let (e, g) = handed_rest fl wk s wks d.1 h.1 in (rw (same, e), (rw same h.0, g))

  -- The worker that was given a file is idle no more; the others are as they were.
  handed_all :
      (fl wk : Bytes) (s : zk.Store) (wks : List Bytes)
      → Sendable fl
      → Distinct (wk ∷ wks)
      → Working laws s (wk ∷ wks)
      → (keep (idle laws localhost (handed laws fl wk s)) (wk ∷ wks)
          ≡ keep (idle laws localhost s) wks)
        × Working laws (handed laws fl wk s) (wk ∷ wks)
  handed_all fl wk s wks c d h =
      let busy = status-handed_self fl wk s c h.0 in
      let (e, g) = handed_rest fl wk s wks d.0 h.1 in (rw (busy, e), (rw busy (omega arith), g))

  -- The end of the loop: the store, whether every file was looked at, and the workers from `i_wks`
  -- on, of which the idle ones are those that got nothing.
  pub record Assigned (s : zk.Store) (fls wks : List Bytes)
      (r : Bool × List Bytes × Buffer × World zk) : Type 0 where
    pub room : 0 < r.2.len
    pub finished :
        r.0 ≡ leb (length (keep (waits laws s) fls)) (length (keep (idle laws localhost s) wks))
    pub dealt :
        r.3.store ≡ issue laws (deal (keep (waits laws s) fls) (keep (idle laws localhost s) wks)) s
    pub left :
        r.0 ≡ true
        → Working laws r.3.store r.1
          × Distinct r.1
          × (keep (idle laws localhost r.3.store) r.1
              ≡ drop (length (keep (waits laws s) fls)) (keep (idle laws localhost s) wks))

  abbrev pub Run : List Bytes → List Bytes → Buffer → Buffer → World zk → Type 0
  Run fls wks fb wb w =
      (r : Bool × List Bytes × Buffer × World zk) × (assign zk localhost fls wks fb wb w ≡ some r)
      × Assigned w.store fls wks r

  -- One more file that does not wait changes nothing.
  skipped :
      (s : zk.Store) (fl : Bytes) (fls wks : List Bytes) (r : Bool × List Bytes × Buffer × World zk)
      → waits laws s fl ≡ false
      → Assigned s fls wks r
      → Assigned s (fl ∷ fls) wks r
  skipped s fl fls wks r h a = record {
    room = a.room;
    finished = rw h a.finished;
    dealt = rw h a.dealt;
    left = rw h a.left;
  }

  -- One more file, which the first idle worker takes.
  taken :
      (s : zk.Store) (fl wk : Bytes) (fls wks rest : List Bytes)
      (r : Bool × List Bytes × Buffer × World zk)
      → waits laws s fl ≡ true
      → keep (idle laws localhost s) wks ≡ wk ∷ keep (idle laws localhost s) rest
      → keep (idle laws localhost (handed laws fl wk s)) (wk ∷ rest)
        ≡ keep (idle laws localhost s) rest
      → Assigned (handed laws fl wk s) fls (wk ∷ rest) r
      → Assigned s (fl ∷ fls) wks r
  taken s fl wk fls wks rest r h e g a = record {
    room = a.room;
    finished =
        rw (h, e)
          ((rw (g, handed-waits fl wk s fls) at a.finished)
            ∙ leb-suc (length (keep (waits laws s) fls))
                (length (keep (idle laws localhost s) rest)));
    dealt = rw (h, e) (rw (g, handed-waits fl wk s fls) at a.dealt);
    left = rw (h, e) (rw (g, handed-waits fl wk s fls) at a.left);
  }

  pub assign_lem :
      (fls wks : List Bytes) (fb wb : Buffer) (w : World zk)
      → All Sendable fls
      → 0 < fb.len
      → 0 < wb.len
      → Filed laws w.store fls
      → Working laws w.store wks
      → Distinct wks
      → Run fls wks fb wb w
  unfolding assign zoo_get
  assign_lem [] wks fb wb w c fr wr hf hw d = (
    (true, wks, wb, w),
    refl,
    record { room = wr; finished = ground arith; dealt = refl; left = λ _. (hw, d, refl) },
  )
  assign_lem (fl ∷ fls) wks fb wb w c fr wr hf hw d =
      let path : Bytes = child g_path_files fl in
      let fb1 : Buffer = fill fb (zk.get w.store path fb.len) in
      let (read, fr1) = fill-first laws w.store path fb fr hf.0 in
      elim (Bool-cases (waits laws w.store fl)) [
        | inr h ↦
            let (r, run, a) = assign_lem fls wks fb1 wb w c.1 fr1 wr hf.1 hw d in
            (r, rw (read, h, assign) run, skipped w.store fl fls wks r h a)
        | inl h ↦
            let (wks', wb', w', run, wr', o) = offer_lem laws localhost fl wks wb w c.0 wr hw d in
            elim o [
              | nobody e f g ↦ (
                (false, [], wb', w'),
                rw (read, h, run, f, assign),
                record {
                  room = wr';
                  finished = rw (h, e) (ground arith);
                  dealt = rw (h, e) g;
                  left = λ e'. absurd (false≢true e');
                },
              )
              | somebody wk rest e f g hw' d' ↦
                  let (alike, hw1) = handed_all fl wk w.store rest c.0 d' hw' in
                  let hf1 = handed-Filed fl wk w.store fls hf.1 in
                  let hf2 = subst (λ t. Filed laws t fls) (sym g) hf1 in
                  let hw2 = subst (λ t. Working laws t (wk ∷ rest)) (sym g) hw1 in
                  let (r, run', a) = assign_lem fls (wk ∷ rest) fb1 wb' w' c.1 fr1 wr' hf2 hw2 d' in
                  let a' = subst (λ t. Assigned t fls (wk ∷ rest) r) g a in
                  (
                    r,
                    rw (read, h, run, f, assign) run',
                    taken w.store fl wk fls wks rest r h e alike a',
                  )
            ]
      ]
