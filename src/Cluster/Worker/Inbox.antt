-- ===== src/Cluster/Worker/Inbox.antt =====
-- A command that was written to a worker is what the worker receives.
use native.Mathlib.Nat.{sub-zero, suc-sub-suc}
use distributed_task_dispath.Prelude.{
  ℕ, zero, suc, ◌-◌, ◌≤◌, ◌<◌, [], ◌∷◌, ◌++◌, some, ◌≡◌, refl, ap, arith, take, length, replicate,
  append_assoc,
}
use distributed_task_dispath.Bytes.{Bytes, c_str}
use distributed_task_dispath.Bytes.Search.{Lacks, c_str_padded}
use distributed_task_dispath.Zookeeper.{Zookeeper, World, first, pad}
use distributed_task_dispath.Zookeeper.Laws.{Laws}
use distributed_task_dispath.Cluster.Paths.{g_path_works, child}
use distributed_task_dispath.Cluster.Worker.{recv_work}

take-replicate : (n k : ℕ) → n ≤ k → take n (replicate {A = ℕ} k 0) ≡ replicate n 0
take-replicate zero k h = refl
take-replicate (suc n) zero h = absurd (omega arith)
take-replicate (suc n) (suc k) h = ap (◌∷◌ 0) (take-replicate n k (omega arith))

-- The beginning of a padded array is a shorter padded array.
pub take-pad : (n m : ℕ) (c : Bytes) → length c ≤ n → n ≤ m → take n (pad m c) ≡ pad n c
take-pad n m [] h k = rw (sub-zero m, sub-zero n) (take-replicate n m k)
take-pad zero m (x ∷ c) h k = absurd (omega arith)
take-pad (suc n) zero (x ∷ c) h k = absurd (omega arith)
take-pad (suc n) (suc m) (x ∷ c) h k =
    rw (suc-sub-suc m (length c), suc-sub-suc n (length c))
      (ap (◌∷◌ x) (take-pad n m c (omega arith) (omega arith)))

c_str-replicate : (k : ℕ) (c t : Bytes) → 0 < k → Lacks 0 c → c_str ((c ++ replicate k 0) ++ t) ≡ c
c_str-replicate zero c t h l = absurd (omega arith)
c_str-replicate (suc k) c t h l =
    rw (append_assoc c (0 ∷ replicate k 0) t) (c_str_padded c (replicate k 0 ++ t) l)

pub c_str-pad : (n : ℕ) (c t : Bytes) → length c < n → Lacks 0 c → c_str (pad n c ++ t) ≡ c
c_str-pad n c t h = c_str-replicate (n - length c) c t (omega arith)

first-append : (c t : Bytes) → 0 < first c → first (c ++ t) ≡ first c
first-append [] t h = absurd (omega arith)
first-append (x ∷ c) t h = refl

module _ {zk : Zookeeper} (laws : Laws zk) where
  -- If the worker's node holds a text of at most 63 bytes that begins with w, padded to the 512
  -- bytes that the monitor writes, then `recv_work` gives that text, whole and alone.
  pub recv_work-command :
      (localhost c : Bytes) (w : World zk)
      → laws.node w.store (child g_path_works localhost) ≡ some (pad 512 c)
      → first c ≡ b'w'
      → Lacks 0 c
      → length c < 64
      → (recv_work zk localhost w).0 ≡ c
  unfolding recv_work
  recv_work-command localhost c w e begins l h =
      let some_byte : 0 < first c = omega arith in
      let padded = first-append c (replicate (64 - length c) 0) some_byte in
      rw
        (
          laws.get_lem w.store (child g_path_works localhost) 64,
          e,
          take-pad 64 512 c (omega arith) (omega arith),
          first-append (pad 64 c) _ (omega (arith, padded)),
          padded,
          begins,
        )
        (c_str-pad 64 c _ h l)
