-- ===== src/Cluster/Dispatch/Loops.antt =====
-- One pass of the dispatch loops, in terms of what the nodes hold: which worker takes a file, and
-- what the change does to the status of the other nodes.
use distributed_task_dispath.Prelude.{
  ◌<◌, Bool, true, false, not, ◌&&◌, List, [], ◌∷◌, Option, none, some, ◌≡◌, refl, inl, inr, arith,
  ◌==◌, Bool-cases, keep, All, Distinct,
}
use distributed_task_dispath.Bytes.{Bytes, bytes_eq}
use distributed_task_dispath.Bytes.Equality.{bytes_eq_refl}
use distributed_task_dispath.Zookeeper.{
  Zookeeper, World, Buffer, fill, first, pad, asking, on_data, zoo_get, zoo_set, sleep,
}
use distributed_task_dispath.Zookeeper.Laws.{Laws, status, first_of_node, fill-first}
use distributed_task_dispath.Cluster.Paths.{g_path_files, g_path_works, child}
use distributed_task_dispath.Cluster.Dispatch.{wk_command, offer}

-- A file for which the command can be written.
abbrev pub Sendable : Bytes → Type 0
Sendable fl = (c : Bytes) × (wk_command fl ≡ some c)

-- What is sent for a file.
pub sent : Bytes → Bytes
sent fl = elim (wk_command fl) [ none ↦ [] | some c ↦ c ]

pub sent_lem : (fl c : Bytes) → wk_command fl ≡ some c → sent fl ≡ c
unfolding sent
sent_lem fl c e = rw (e, sent)

pub wk_command-sent : (fl : Bytes) → Sendable fl → wk_command fl ≡ some (sent fl)
unfolding sent
wk_command-sent fl (c, e) = rw (e, sent)

-- A command begins with the letter that no idle worker's node begins with.
pub sent-first : (fl : Bytes) → Sendable fl → first (pad 512 (sent fl)) ≡ b'w'
unfolding wk_command
sent-first fl c = by_command (sent fl) (wk_command-sent fl c)
  where
    by_command : (t : Bytes) → wk_command fl ≡ some t → first (pad 512 t) ≡ b'w'
    by_command t e = ground arith

pub keep_cong {ℓ} :
    {A : Type ℓ} (p q : A → Bool) (xs : List A) → All (λ x. p x ≡ q x) xs → keep p xs ≡ keep q xs
keep_cong p q [] h = refl
keep_cong p q (x ∷ xs) h = rw (h.0, keep_cong p q xs h.1)

module _ {zk : Zookeeper} (laws : Laws zk) where
  pub status-set_other :
      (s : zk.Store) (p d q : Bytes)
      → bytes_eq p q ≡ false
      → status laws (zk.set s p d).0 q ≡ status laws s q
  status-set_other s p d q h = rw (laws.node-set s p d q, h)

  pub status-set_self :
      (s : zk.Store) (p d : Bytes) → 0 < status laws s p → status laws (zk.set s p d).0 p ≡ first d
  status-set_self s p d there =
      rw (laws.node-set s p d p, bytes_eq_refl p) (by_node (laws.node s p) there)
    where
      by_node :
          (o : Option Bytes)
          → 0 < first_of_node o
          → first_of_node (mathlib.Core.Option.map (λ _. d) o) ≡ first d
      by_node none h = absurd (omega arith)
      by_node (some e) h = refl

  -- A file that waits, and a worker that is idle and is not the monitor.
  abbrev pub waits : zk.Store → Bytes → Bool
  waits s fl = status laws s (child g_path_files fl) == b'r'

  abbrev pub idle : Bytes → zk.Store → Bytes → Bool
  idle localhost s wk = status laws s (child g_path_works wk) == b's' && not (bytes_eq localhost wk)

  -- Every listed worker has a node with data.
  abbrev pub Working : zk.Store → List Bytes → Type 0
  Working s = All (λ wk. 0 < status laws s (child g_path_works wk))

  -- A file goes to a worker, and the monitor sleeps.
  abbrev pub handed : Bytes → Bytes → zk.Store → zk.Store
  handed fl wk s = zk.meanwhile 10 (zk.set s (child g_path_works wk) (pad 512 (sent fl))).0

  -- How the loop over the workers ends: with nobody idle, or at the first idle worker.
  pub data Offered (localhost fl : Bytes) (s : zk.Store) (wks wks' : List Bytes) (s' : zk.Store)
      : Type 0 where
    nobody :
        keep (idle localhost s) wks ≡ [] → wks' ≡ [] → s' ≡ s → Offered localhost fl s wks wks' s'
    somebody :
        (wk : Bytes) (rest : List Bytes)
        → keep (idle localhost s) wks ≡ wk ∷ keep (idle localhost s) rest
        → wks' ≡ wk ∷ rest
        → s' ≡ handed fl wk s
        → Working s (wk ∷ rest)
        → Distinct (wk ∷ rest)
        → Offered localhost fl s wks wks' s'

  Offered-skip :
      {localhost fl : Bytes} {s : zk.Store} {wks wks' : List Bytes} {s' : zk.Store} (wk : Bytes)
      → idle localhost s wk ≡ false
      → Offered localhost fl s wks wks' s'
      → Offered localhost fl s (wk ∷ wks) wks' s'
  Offered-skip wk busy (nobody e f g) = nobody (rw busy e) f g
  Offered-skip wk busy (somebody k rest e f g h d) = somebody k rest (rw busy e) f g h d

  pub offer_lem :
      (localhost fl : Bytes) (wks : List Bytes) (b : Buffer) (w : World zk)
      → Sendable fl
      → 0 < b.len
      → Working w.store wks
      → Distinct wks
      → (wks' : List Bytes) × (b' : Buffer) × (w' : World zk) × (offer zk localhost fl wks b w
          ≡ some (wks', b', w'))
        × (0 < b'.len)
        × Offered localhost fl w.store wks wks' w'.store
  unfolding offer zoo_get zoo_set sleep
  offer_lem localhost fl [] b w c room ks d = ([], b, w, refl, room, nobody refl refl refl)
  offer_lem localhost fl (wk ∷ wks) b w c room ks d =
      let path : Bytes = child g_path_works wk in
      let b1 : Buffer = fill b (zk.get w.store path b.len) in
      let w1 : World zk = asking zk true (on_data path) w in
      let (read, room1) = fill-first laws w.store path b room ks.0 in
      elim (Bool-cases (idle localhost w.store wk)) [
        | inl free ↦ (
          wk ∷ wks,
          b1,
          sleep zk 10 (zoo_set zk path (pad 512 (sent fl)) w1),
          rw (read, free, wk_command-sent fl c),
          room1,
          somebody wk wks (rw free) refl refl ks d,
        )
        | inr busy ↦
            let (wks', b', w', run, room', o) = offer_lem localhost fl wks b1 w1 c room1 ks.1 d.1 in
            (wks', b', w', rw (read, busy) run, room', Offered-skip wk busy o)
      ]
