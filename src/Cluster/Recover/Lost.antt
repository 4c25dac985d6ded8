-- ===== src/Cluster/Recover/Lost.antt =====
-- `recover` means to put the files of dead workers back in the queue. It cuts one byte off a
-- command "w_<file>_<dest>", so that the node that it writes is never a file's.
use mathlib.Core.Option
use distributed_task_dispath.Prelude.{
  ℕ, zero, suc, ◌-◌, Bool, true, false, [], ◌∷◌, ◌++◌, Option, none, some, ◌≡◌, ◌≢◌, refl, ap, sym,
  ◌∙◌, ◌⊎◌, inl, inr, arith, take, drop, length, replicate, get_or, Bool-cases, ◌==◌, ==_iff,
  if◌then◌else◌, ◌&&◌,
}
use distributed_task_dispath.Bytes.{Bytes, codes, bytes_eq, c_str}
use distributed_task_dispath.Zookeeper.{
  Zookeeper, World, Buffer, fill, zeroed, first, zoo_get, zoo_set, zoo_delete,
}
use distributed_task_dispath.Zookeeper.Laws.{Laws, first_of_node}
use distributed_task_dispath.Cluster.Paths.{
  g_path_files, g_path_works, child, child_ne, works_ne_files, files_ne_works,
}
use distributed_task_dispath.Cluster.Recover.{give_up_own, clear_worker}

abbrev pub second_of_node : Option Bytes → ℕ
second_of_node none = 0
second_of_node (some d) = get_or d 1 0

-- The data of a worker's node, if it begins with w, begins with w_ as the monitor's commands do.
abbrev pub Commanded : Option Bytes → Type 0
Commanded o = first_of_node o ≡ b'w' → second_of_node o ≡ b'_'

-- The name of a task's file: it is not empty, and does not begin with an underscore.
abbrev pub PlainName : Bytes → Type 0
PlainName f = (f ≢ []) × (first f ≢ b'_')

abbrev Cut : Bytes → Type 0
Cut t = (t ≡ []) ⊎ (first t ≡ b'_')

Cut-ne : (t f : Bytes) → Cut t → PlainName f → t ≢ f
Cut-ne t f (inl e) h g = h.0 (sym g ∙ e)
Cut-ne t f (inr e) h g = h.1 (ap first (sym g) ∙ e)

c_str-Cut : (t : Bytes) → Cut t → Cut (c_str t)
unfolding c_str
c_str-Cut [] h = inl refl
c_str-Cut (x ∷ t) (inl e) = absurd (cc)
c_str-Cut (x ∷ t) (inr e) = rw (e, c_str) (inr e)

own_stem :
    (o : Option Bytes)
    → Commanded o
    → first (fill (zeroed 64) (Option.map (take 64) o)).bytes ≡ b'w'
    → Cut (c_str (drop 1 (fill (zeroed 64) (Option.map (take 64) o)).bytes))
own_stem none h e = absurd (omega arith)
own_stem (some []) h e = absurd (omega arith)
own_stem (some (x ∷ [])) h e = let k = h e in absurd (omega arith)
own_stem (some (x ∷ y ∷ d)) h e = c_str-Cut _ (inr (h e))

take_exact : (d t : Bytes) → take (length d) (d ++ t) ≡ d
take_exact [] t = refl
take_exact (x ∷ d) t = ap (◌∷◌ x) (take_exact d t)

abbrev blank : ℕ → Buffer
blank n = record { bytes = replicate 64 b'0'; len = n }

dead_stem :
    (o : Option Bytes) (n : ℕ)
    → Commanded o
    → let b = fill (blank n) (Option.map (take n) o) in
      first b.bytes ≡ b'w' → Cut (c_str (take (b.len - 1) (drop 1 b.bytes)))
dead_stem none n h e = absurd (omega arith)
dead_stem (some []) zero h e = absurd (omega arith)
dead_stem (some []) (suc n) h e = absurd (omega arith)
dead_stem (some (x ∷ d)) zero h e = absurd (omega arith)
dead_stem (some (x ∷ d)) (suc n) h e =
    let size : suc (length (take n d)) - 1 ≡ length (take n d) = omega arith in
    rw (size, take_exact (take n d)) (c_str-Cut _ (cut d n (h e)))
  where
    cut : (d : Bytes) (n : ℕ) → get_or d 0 0 ≡ b'_' → Cut (take n d)
    cut d zero k = inl refl
    cut [] (suc n) k = inl refl
    cut (y ∷ d) (suc n) k = inr k

module _ {zk : Zookeeper} (laws : Laws zk) where
  open laws use {node, get_lem, node-set, node-delete}

  abbrev pub AllCommanded : zk.Store → Type 0
  AllCommanded s = (k : Bytes) → Commanded (node s (child g_path_works k))

  -- A change that leaves a file's node as it is, and the workers' nodes in shape.
  pub record Keeps (f : Bytes) (s s' : zk.Store) : Type 0 where
    pub file : node s' (child g_path_files f) ≡ node s (child g_path_files f)
    pub shape : AllCommanded s → AllCommanded s'

  pub Keeps-refl : (f : Bytes) (s : zk.Store) → Keeps f s s
  Keeps-refl f s = record { file = refl; shape = λ h. h }

  pub Keeps-trans : {f : Bytes} {s t u : zk.Store} → Keeps f s t → Keeps f t u → Keeps f s u
  Keeps-trans a b = record { file = b.file ∙ a.file; shape = λ h. b.shape (a.shape h) }

  node-set_other :
      (s : zk.Store) (p d q : Bytes) → bytes_eq p q ≡ false → node (zk.set s p d).0 q ≡ node s q
  node-set_other s p d q h = rw (node-set s p d q, h)

  Keeps-set_file :
      (f t d : Bytes) (s : zk.Store)
      → Cut t
      → PlainName f
      → Keeps f s (zk.set s (child g_path_files t) d).0
  Keeps-set_file f t d s c h = record {
    file = node-set_other s _ d _ (child_ne g_path_files t f (Cut-ne t f c h));
    shape = λ a k. rw (node-set_other s _ d _ (files_ne_works t k)) (a k);
  }

  Keeps-set_idle :
      (f j : Bytes) (s : zk.Store) → Keeps f s (zk.set s (child g_path_works j) (codes "s")).0
  Keeps-set_idle f j s = record {
    file = node-set_other s _ (codes "s") _ (works_ne_files j f);
    shape = λ a k. rw (node-set s (child g_path_works j) (codes "s") (child g_path_works k)) (
        idle_or (bytes_eq (child g_path_works j) (child g_path_works k))
          (node s (child g_path_works k)) (a k));
  }
    where
      idle_or :
          (b : Bool) (o : Option Bytes)
          → Commanded o
          → Commanded (if b then Option.map (λ _. codes "s") o else o)
      idle_or true none h = h
      idle_or true (some d) h = λ e. absurd (omega arith)
      idle_or false o h = h

  Keeps-delete : (f j : Bytes) (s : zk.Store) → Keeps f s (zk.delete s (child g_path_works j)).0
  Keeps-delete f j s = record {
    file =
        node-delete s _ _ ∙ gone_not (zk.delete s (child g_path_works j)).1 _ (works_ne_files j f);
    shape = λ a k. rw (node-delete s (child g_path_works j) (child g_path_works k)) (
        gone_or
          ((zk.delete s (child g_path_works j)).1
            && bytes_eq (child g_path_works j) (child g_path_works k))
          (node s (child g_path_works k)) (a k));
  }
    where
      gone_or : (b : Bool) (o : Option Bytes) → Commanded o → Commanded (if b then none else o)
      gone_or true o h = λ e. absurd (omega arith)
      gone_or false o h = h

      gone_not :
          (b : Bool) (c : Bool) {o : Option Bytes} → c ≡ false → (if b && c then none else o) ≡ o
      gone_not b c h = ground arith

  pub give_up_own-Keeps :
      (localhost f : Bytes) (w : World zk)
      → AllCommanded w.store
      → PlainName f
      → Keeps f w.store (give_up_own zk localhost w).store
  unfolding give_up_own zoo_get zoo_set
  give_up_own-Keeps localhost f w a h =
      let path : Bytes = child g_path_works localhost in
      let stem = own_stem (node w.store path) (a localhost) in
      let read = get_lem w.store path 64 in
      rw read
        (elim (Bool-cases
          (first (fill (zeroed 64) (Option.map (take 64) (node w.store path))).bytes == b'w')) [
            | inr no_task ↦ rw no_task (Keeps-refl f w.store)
            | inl task ↦ rw task (
                Keeps-trans (Keeps-set_file f _ (codes "r") w.store (stem ((==_iff _ _).0 task)) h)
                  (Keeps-set_idle f localhost _))
          ])

  pub clear_worker-Keeps :
      (localhost f wk : Bytes) (n : ℕ) (w : World zk)
      → AllCommanded w.store
      → PlainName f
      → Keeps f w.store (clear_worker zk localhost wk n w).1.store
  unfolding clear_worker zoo_get zoo_set zoo_delete
  clear_worker-Keeps localhost f wk n w a h =
      let path : Bytes = child g_path_works wk in
      let stem = dead_stem (node w.store path) n (a wk) in
      let read = get_lem w.store path n in
      rw read
        (elim (Bool-cases
          (first (fill (blank n) (Option.map (take n) (node w.store path))).bytes == b'w')) [
            | inr no_task ↦ rw no_task (Keeps-delete f wk w.store)
            | inl task ↦ rw task (
                Keeps-trans (Keeps-set_file f _ (codes "r") w.store (stem ((==_iff _ _).0 task)) h)
                  (Keeps-delete f wk _))
          ])
