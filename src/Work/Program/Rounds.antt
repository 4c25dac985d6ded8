-- ===== src/Work/Program/Rounds.antt =====
-- The rounds of the workers that a dispatch gave a file to, one after the other.
use distributed_task_dispath.Prelude.{
  Bool, if◌then◌else◌, ℕ, suc, ◌+◌, ◌≤◌, ◌<◌, true, false, List, [], ◌∷◌, Option, none, some, ◌≡◌,
  ◌≢◌, refl, ap, sym, subst, ◌∙◌, inl, inr, arith, All, All-map, In, Distinct, length,
}
use distributed_task_dispath.Prelude.Int.{pos}
use distributed_task_dispath.Bytes.{Bytes, bytes_eq}
use distributed_task_dispath.Bytes.Decimal.{to_string, int_max}
use distributed_task_dispath.Zookeeper.{Zookeeper, World, mode_worker, pad, is_ok}
use distributed_task_dispath.Zookeeper.Closed.{SetClosed, WaitClosed, node-SetClosed}
use distributed_task_dispath.Zookeeper.Laws.{Laws, status, first_of_node}
use distributed_task_dispath.Cluster.Paths.{
  g_path_files, g_path_works, child, child_ne, works_ne_files, files_ne_works, works_ne_root,
  files_ne_root,
}
use distributed_task_dispath.Cluster.Dispatch.Loops.{sent, sent-first}
use distributed_task_dispath.Cluster.Dispatch.Nodes.{Still}
use distributed_task_dispath.Cluster.Dispatch.Pairing.{deal}
use distributed_task_dispath.Work.{Tools, again, round, is_int}
use distributed_task_dispath.Work.Command.{received-Reads, wk_command-to_string}
use distributed_task_dispath.Work.Round.{final}
use distributed_task_dispath.Work.Program.Delivered.{worker_on, round-status}

-- Each worker has a disk, and each pair is of a file and a worker.
module _ (zk : Zookeeper) (tools : Tools) (fuel nap : ℕ) (disk : Bytes → tools.Disk) where
  -- One round of the worker of each pair, one after the other.
  abbrev pub rounds : List (Bytes × Bytes) → zk.Store → Option zk.Store
  rounds [] s = some s
  rounds ((f, k) ∷ ps) s =
      elim (round zk tools k (λ s. s) fuel nap
        (record { store = s; watches = []; g_mode = mode_worker }) (disk k)) [
          | none ↦ none
          | some (next, v, d) ↦ rounds ps v.store
        ]

-- The file of a task that is not 0.
abbrev pub IsTask : Bytes → Type 0
IsTask f = (m : ℕ) × (f ≡ to_string (suc m)) × (suc m + 4 ≤ int_max)

module _ {zk : Zookeeper} (laws : Laws zk) where
  open laws use {node}

  -- What a round needs: the command in the worker's node, and the file's node.
  abbrev pub Given : zk.Store → Bytes × Bytes → Type 0
  Given s q =
      (node s (child g_path_works q.1) ≡ some (pad 512 (sent q.0)))
      × (0 < status laws s (child g_path_files q.0))

module _ {zk : Zookeeper} (laws : Laws zk) (tools : Tools) (disk : Bytes → tools.Disk) where
  -- The last try of a worker on a task gives 0.
  abbrev pub recovers : Bytes → ℕ → Bool
  recovers k task = is_int 0 (final laws tools k (pos task) (disk k))

  -- What the rounds leave of a pair: the file done and the worker idle if the worker's last try gave
  -- 0, and the file in work and the worker with its command if not.
  abbrev pub Worked : zk.Store → Bytes × Bytes → Type 0
  Worked s q =
      (m : ℕ) × (q.0 ≡ to_string (suc m))
      × (status laws s (child g_path_files q.0) ≡ (if recovers q.1 (suc m) then b'g' else b'y'))
      × (status laws s (child g_path_works q.1) ≡ (if recovers q.1 (suc m) then b's' else b'w'))

-- A path that is neither of the two of a pair.
abbrev pub Off : Bytes → Bytes × Bytes → Type 0
Off p q =
    (bytes_eq (child g_path_files q.0) p ≡ false) × (bytes_eq (child g_path_works q.1) p ≡ false)

abbrev pub Differ : Bytes × Bytes → Bytes × Bytes → Type 0
Differ q r = (q.0 ≢ r.0) × (q.1 ≢ r.1)

abbrev pub Separate : List (Bytes × Bytes) → Type 0
Separate [] = Unit
Separate (q ∷ ps) = All (Differ q) ps × Separate ps

Off-file : (q r : Bytes × Bytes) → Differ q r → Off (child g_path_files r.0) q
Off-file q r h = (child_ne g_path_files q.0 r.0 h.0, works_ne_files q.1 r.0)

Off-worker : (q r : Bytes × Bytes) → Differ q r → Off (child g_path_works r.1) q
Off-worker q r h = (files_ne_works q.0 r.1, child_ne g_path_works q.1 r.1 h.1)

turned : (q r : Bytes × Bytes) → Differ q r → Differ r q
turned q r h = (λ e. h.0 (sym e), λ e. h.1 (sym e))

pub deal_files :
    (P : Bytes → Type 0) (fls wks : List Bytes) → All P fls → All (λ q. P q.0) (deal fls wks)
deal_files P [] wks h = tt
deal_files P (fl ∷ fls) [] h = tt
deal_files P (fl ∷ fls) (wk ∷ wks) (h, hs) = (h, deal_files P fls wks hs)

deal-Differ :
    (f k : Bytes) (fls wks : List Bytes)
    → All (λ g. f ≢ g) fls
    → All (λ j. k ≢ j) wks
    → All (Differ (f, k)) (deal fls wks)
deal-Differ f k [] wks h g = tt
deal-Differ f k (fl ∷ fls) [] h g = tt
deal-Differ f k (fl ∷ fls) (wk ∷ wks) (h, hs) (g, gs) = ((h, g), deal-Differ f k fls wks hs gs)

pub deal-Separate : (fls wks : List Bytes) → Distinct fls → Distinct wks → Separate (deal fls wks)
deal-Separate [] wks d e = tt
deal-Separate (fl ∷ fls) [] d e = tt
deal-Separate (fl ∷ fls) (wk ∷ wks) (h, d) (g, e) =
    (deal-Differ fl wk fls wks h g, deal-Separate fls wks d e)

-- With as many workers as files, each file has one.
pub deal_all :
    (f : Bytes) (fls wks : List Bytes)
    → length fls ≤ length wks
    → In f fls
    → (k : Bytes) × In (f, k) (deal fls wks)
deal_all f [] wks enough i = absurd i
deal_all f (fl ∷ fls) [] enough i = absurd (omega arith)
deal_all f (fl ∷ fls) (wk ∷ wks) enough (inl here) = (wk, inl (ap (λ x. (x, wk)) here))
deal_all f (fl ∷ fls) (wk ∷ wks) enough (inr later) =
    let (k, i) = deal_all f fls wks (omega arith) later in (k, inr i)

module _ {zk : Zookeeper} (laws : Laws zk) (still : Still laws) (tools : Tools) (fuel nap : ℕ)
    (disk : Bytes → tools.Disk) where
  open laws use {node}
  open tools use {Disk}

  one_round :
      (q : Bytes × Bytes) (s : zk.Store)
      → is_ok (node s g_path_files) ≡ true
      → IsTask q.0
      → Given laws s q
      → (v : World zk) × (d : Disk) × (round zk tools q.1
            (λ s. s)
            fuel
            nap
            (record { store = s; watches = []; g_mode = mode_worker })
            (disk q.1)
          ≡ some (again, v, d))
        × Worked laws tools disk v.store q
        × ((J : zk.Store → Type 0)
            → SetClosed zk J (child g_path_files q.0)
            → SetClosed zk J (child g_path_works q.1)
            → WaitClosed zk J
            → J s
            → J v.store)
  one_round (f, k) s root (m, name, small) (told, there) =
      let told_now : node s (child g_path_works k) ≡ some (pad 512 (sent (to_string (suc m)))) =
        told ∙ ap (λ g. some (pad 512 (sent g))) name in
      let busy : status laws s (child g_path_works k) ≡ b'w' =
        ap first_of_node told_now ∙ sent-first _ (_, wk_command-to_string (suc m) small) in
      let (v, d, run, file, worker, closed) =
        round-status laws still tools fuel nap k m s [] (disk k)
          (received-Reads laws k (worker_on laws still tools fuel nap k s []) (suc m) small
            told_now)
          root (subst (λ g. 0 < status laws s (child g_path_files g)) name there)
          (rw busy (omega arith)) in
      let path : child g_path_files f ≡ child g_path_files (to_string (suc m)) =
        ap (child g_path_files) name in
      (
        v,
        d,
        run,
        (m, name, ap (status laws v.store) path ∙ file, worker ∙ rw busy refl),
        λ J by_file. closed J (subst (λ p. SetClosed zk J p) path by_file),
      )

  -- Before the others' rounds and after them, a pair's two nodes are as one round left them.
  still_Given :
      (q : Bytes × Bytes) (s t : zk.Store) (ps : List (Bytes × Bytes))
      → ((p : Bytes) → Off p q → node t p ≡ node s p)
      → All (Differ q) ps
      → All (Given laws s) ps
      → All (Given laws t) ps
  still_Given q s t [] frame h g = tt
  still_Given q s t (r ∷ ps) frame (h, hs) (g, gs) = (
    (
      frame (child g_path_works r.1) (Off-worker q r h) ∙ g.0,
      rw (ap first_of_node (frame (child g_path_files r.0) (Off-file q r h))) g.1,
    ),
    still_Given q s t ps frame hs gs,
  )

  pub rounds-Worked :
      (ps : List (Bytes × Bytes)) (s : zk.Store)
      → is_ok (node s g_path_files) ≡ true
      → All (λ q. IsTask q.0) ps
      → All (Given laws s) ps
      → Separate ps
      → (t : zk.Store) × (rounds zk tools fuel nap disk ps s ≡ some t)
        × All (Worked laws tools disk t) ps
        × ((p : Bytes) → All (Off p) ps → node t p ≡ node s p)
        × ((J : zk.Store → Type 0)
            → ((f : Bytes) → SetClosed zk J (child g_path_files f))
            → ((k : Bytes) → SetClosed zk J (child g_path_works k))
            → WaitClosed zk J
            → J s
            → J t)
  rounds-Worked [] s root good given apart =
      (s, refl, tt, λ p off. refl, λ J by_file by_worker by_wait h. h)
  rounds-Worked ((f, k) ∷ ps) s root (good, goods) (given, givens) (h, apart) =
      let q : Bytes × Bytes = (f, k) in
      let (v, d, run, done, closed) = one_round q s root good given in
      let frame : (p : Bytes) → Off p q → node v.store p ≡ node s p = λ p off.
        closed (λ x. node x p ≡ node s p)
          (node-SetClosed laws p (child g_path_files f) (node s p) off.0)
          (node-SetClosed laws p (child g_path_works k) (node s p) off.1) (λ n x h. still n x p ∙ h)
          refl in
      let (t, rest, finished, frame', closed') =
        rounds-Worked ps v.store
          (ap is_ok (frame g_path_files (files_ne_root f, works_ne_root k)) ∙ root) goods
          (still_Given q s v.store ps frame h givens) apart in
      let kept : (p : Bytes) → All (Off p) ps → status laws t p ≡ status laws v.store p =
        λ p off. ap first_of_node (frame' p off) in
      (
        t,
        rw (run, rounds) rest,
        (
          (
            done.0,
            done.1,
            kept (child g_path_files f) (All-map _ _ ps (λ r n. Off-file r q (turned q r n)) h)
                ∙ done.2,
            kept (child g_path_works k) (All-map _ _ ps (λ r n. Off-worker r q (turned q r n)) h)
                ∙ done.3,
          ),
          finished,
        ),
        λ p off. frame' p off.1 ∙ frame p off.0,
        λ J by_file by_worker by_wait h.
            closed' J by_file by_worker by_wait (closed J (by_file f) (by_worker k) by_wait h),
      )
