-- ===== src/Work/Insert/Barrier.antt =====
-- The wait of `insrt` for the five nodes.
use distributed_task_dispath.Prelude.{
  ℕ, zero, suc, ◌+◌, ◌≤◌, ◌<◌, Bool, true, ◌&&◌, List, [], ◌∷◌, ◌++◌, some, ◌≡◌, ◌↔◌, refl, sym, ap,
  ◌∙◌, inl, inr, arith, Bool-cases, ◌==◌, ==_iff,
}
use distributed_task_dispath.Prelude.Int.{pos}
use distributed_task_dispath.Bytes.{Bytes, bytes_eq}
use distributed_task_dispath.Bytes.Equality.{bytes_eq_iff}
use distributed_task_dispath.Tendis.{Tendis, redis_select}
use distributed_task_dispath.Work.Insert.{status_query, ready, ask_nodes, barrier}

module _ (db : Tendis) where
  -- The status of a node in the database.
  abbrev pub status_of : db.Data → ℕ → Bytes
  status_of d i = (redis_select db (status_query (pos i)) d).0

  abbrev pub AllReady : db.Data → Type 0
  AllReady d = (i : ℕ) → i < 5 → status_of d i ≡ ready

  -- A query for a status changes nothing.
  abbrev pub Quiet : Type 0
  Quiet = (i : ℕ) (d : db.Data) → (redis_select db (status_query (pos i)) d).1 ≡ d

  all_ready : ℕ → ℕ → db.Data → Bool
  all_ready zero i d = true
  all_ready (suc left) i d = bytes_eq (status_of d i) ready && all_ready left (suc i) d

  ask_nodes_lem :
      (left i : ℕ) (d : db.Data) → Quiet → ask_nodes db left i d ≡ (all_ready left i d, d)
  unfolding ask_nodes all_ready
  ask_nodes_lem zero i d q = refl
  ask_nodes_lem (suc left) i d q = rw (q i d, ask_nodes_lem left (suc i) d q) refl

  all_ready_iff :
      (left i : ℕ) (d : db.Data)
      → (all_ready left i d ≡ true) ↔ ((k : ℕ) → i ≤ k → k < i + left → status_of d k ≡ ready)
  unfolding all_ready
  all_ready_iff zero i d = (λ e k l h. absurd (omega arith), λ h. refl)
  all_ready_iff (suc left) i d = elim (Bool-cases (bytes_eq (status_of d i) ready)) [
    | inl here ↦
        let same = (bytes_eq_iff (status_of d i) ready).0 here in
        let rest = all_ready_iff left (suc i) d in
        (
          λ e k l h. elim (Bool-cases (i == k)) [
            | inl first_one ↦ ap (status_of d) (sym ((==_iff i k).0 first_one)) ∙ same
            | inr further ↦
                rest.0 (ground (arith, e, here)) k (ground (arith, further, l)) (omega arith)
          ],
          λ f. rw here (rest.1 (λ k l h. f k (omega arith) (omega arith))),
        )
    | inr other ↦ (
      λ e. absurd (ground (arith, e, other)),
      λ f. absurd (
          ground
            (arith, bytes_eq_iff (status_of d i) ready, f i (omega arith) (omega arith), other)),
    )
  ]

  all_ready-AllReady : (d : db.Data) → (all_ready 5 0 d ≡ true) ↔ AllReady d
  all_ready-AllReady d =
      let (there, back) = all_ready_iff 5 0 d in
      (λ e i h. there e i (omega arith) (omega arith), λ r. back (λ k l h. r k (omega arith)))

  -- What the others have done after some turns.
  abbrev pub after_turns : List (db.Data → db.Data) → db.Data → db.Data
  after_turns [] d = d
  after_turns (others ∷ turns) d = after_turns turns (others d)

  -- If the five statuses are ok after some turns of the other processes and one more, then the wait
  -- ends, at that turn or before it, with the five statuses ok; a query changes nothing.
  pub barrier-waits :
      (turns later : List (db.Data → db.Data)) (last : db.Data → db.Data) (d : db.Data)
      → Quiet
      → AllReady (last (after_turns turns d))
      → (d' : db.Data) × (barrier db (turns ++ last ∷ later) d ≡ some d') × AllReady d'
  unfolding barrier
  barrier-waits [] later last d q r = (
    last d,
    rw (ask_nodes_lem 5 0 (last d) q, (all_ready-AllReady (last d)).1 r, barrier)
        (rw (ask_nodes_lem 5 0 (last d) q) refl),
    r,
  )
  barrier-waits (others ∷ turns) later last d q r = elim (Bool-cases (all_ready 5 0 (others d))) [
    | inl now ↦ (
      others d,
      rw (ask_nodes_lem 5 0 (others d) q, now, barrier) (rw (ask_nodes_lem 5 0 (others d) q) refl),
      (all_ready-AllReady (others d)).0 now,
    )
    | inr not_yet ↦
        let (d', run, ok) = barrier-waits turns later last (others d) q r in
        (
          d',
          rw (ask_nodes_lem 5 0 (others d) q, not_yet, barrier)
              (rw (ask_nodes_lem 5 0 (others d) q) run),
          ok,
        )
  ]
