-- ===== src/Cluster/Dispatch/Nodes.antt =====
-- What a dispatch leaves in the nodes of the workers, byte for byte: the commands of the pairs, and
-- the stop command.
use mathlib.Core.Option
use distributed_task_dispath.Prelude.{
  ℕ, zero, suc, true, false, Bool, ◌&&◌, not, ◌==◌, List, [], ◌∷◌, Option, none, some, ◌≡◌, ◌≢◌,
  refl, ap, sym, subst, ◌∙◌, inl, inr, arith, All, In, Distinct, keep, Bool-cases, length, drop,
}
use distributed_task_dispath.Bytes.{Bytes, bytes_eq}
use distributed_task_dispath.Bytes.Equality.{bytes_eq_refl}
use distributed_task_dispath.Zookeeper.{Zookeeper, pad, is_ok}
use distributed_task_dispath.Zookeeper.Closed.{SetClosed, WaitClosed}
use distributed_task_dispath.Zookeeper.Laws.{Laws, first_of_node}
use distributed_task_dispath.Cluster.Paths.{g_path_works, child, child_ne}
use distributed_task_dispath.Cluster.Dispatch.{stop_command}
use distributed_task_dispath.Cluster.Dispatch.Loops.{Sendable, sent-first, idle, sent, handed}
use distributed_task_dispath.Cluster.Dispatch.Pairing.{deal, issue}
use distributed_task_dispath.Cluster.Dispatch.Whole.{stop_all}

pub keep-All : (p : Bytes → Bool) (xs : List Bytes) → All (λ x. p x ≡ true) (keep p xs)
keep-All p [] = tt
keep-All p (x ∷ xs) = elim (Bool-cases (p x)) [
  | inl yes_kept ↦ rw yes_kept (yes_kept, keep-All p xs)
  | inr no_way ↦ rw no_way (keep-All p xs)
]

keep-ne :
    (p : Bytes → Bool) (y : Bytes) (xs : List Bytes)
    → All (λ x. y ≢ x) xs
    → All (λ x. y ≢ x) (keep p xs)
keep-ne p y [] h = tt
keep-ne p y (x ∷ xs) (h, hs) = elim (Bool-cases (p x)) [
  | inl yes_kept ↦ rw yes_kept (h, keep-ne p y xs hs)
  | inr no_way ↦ rw no_way (keep-ne p y xs hs)
]

pub keep-Distinct : (p : Bytes → Bool) (xs : List Bytes) → Distinct xs → Distinct (keep p xs)
keep-Distinct p [] d = tt
keep-Distinct p (x ∷ xs) (h, hs) = elim (Bool-cases (p x)) [
  | inl yes_kept ↦ rw yes_kept (keep-ne p x xs h, keep-Distinct p xs hs)
  | inr no_way ↦ rw no_way (keep-Distinct p xs hs)
]

module _ {zk : Zookeeper} (laws : Laws zk) where
  open laws use {node, node-set}

  abbrev pub There : zk.Store → Bytes → Type 0
  There s k = is_ok (node s (child g_path_works k)) ≡ true

  abbrev pub told : Bytes → zk.Store → zk.Store
  told wk s = (zk.set s (child g_path_works wk) (pad 512 stop_command)).0

  pub told_other :
      (wk k : Bytes) (s : zk.Store)
      → wk ≢ k
      → node (told wk s) (child g_path_works k) ≡ node s (child g_path_works k)
  told_other wk k s h =
      node-set s (child g_path_works wk) (pad 512 stop_command) (child g_path_works k)
      ∙ rw (child_ne g_path_works wk k h) refl

  told_self :
      (k : Bytes) (s : zk.Store)
      → There s k
      → node (told k s) (child g_path_works k) ≡ some (pad 512 stop_command)
  told_self k s h =
      node-set s (child g_path_works k) (pad 512 stop_command) (child g_path_works k)
      ∙ rw (bytes_eq_refl (child g_path_works k)) (written (node s (child g_path_works k)) h)
    where
      written :
          (o : Option Bytes)
          → is_ok o ≡ true
          → Option.map (λ _. pad 512 stop_command) o ≡ some (pad 512 stop_command)
      written none e = absurd (cc)
      written (some d) e = refl

  pub stop_all_other :
      (k : Bytes) (wks : List Bytes) (s : zk.Store)
      → All (λ j. k ≢ j) wks
      → node (stop_all laws wks s) (child g_path_works k) ≡ node s (child g_path_works k)
  stop_all_other k [] s h = refl
  stop_all_other k (wk ∷ wks) s (h, hs) =
      stop_all_other k wks (told wk s) hs ∙ told_other wk k s (λ e. h (sym e))

  still_There :
      (wk : Bytes) (wks : List Bytes) (s : zk.Store)
      → All (λ j. wk ≢ j) wks
      → All (There s) wks
      → All (There (told wk s)) wks
  still_There wk [] s h t = tt
  still_There wk (j ∷ wks) s (h, hs) (t, ts) =
      (ap is_ok (told_other wk j s h) ∙ t, still_There wk wks s hs ts)

  pub stop_all-told :
      (k : Bytes) (wks : List Bytes) (s : zk.Store)
      → Distinct wks
      → All (There s) wks
      → In k wks
      → node (stop_all laws wks s) (child g_path_works k) ≡ some (pad 512 stop_command)
  stop_all-told k [] s d t i = absurd i
  stop_all-told k (wk ∷ wks) s (h, d) (t, ts) (inl here) =
      subst
        (λ j.
          node (stop_all laws wks (told wk s)) (child g_path_works j) ≡ some (pad 512 stop_command))
        here (stop_all_other wk wks (told wk s) h ∙ told_self wk s t)
  stop_all-told k (wk ∷ wks) s (h, d) (t, ts) (inr later) =
      stop_all-told k wks (told wk s) d (still_There wk wks s h ts) later

  pub idle-There :
      (localhost : Bytes) (s : zk.Store) (wks : List Bytes)
      → All (λ k. idle laws localhost s k ≡ true) wks
      → All (There s) wks
  idle-There localhost s [] h = tt
  idle-There localhost s (k ∷ wks) (h, hs) =
      (by_node (node s (child g_path_works k)) h, idle-There localhost s wks hs)
    where
      by_node :
          (o : Option Bytes)
          → (first_of_node o == b's' && not (bytes_eq localhost k)) ≡ true
          → is_ok o ≡ true
      by_node none e = absurd (ground (arith, e))
      by_node (some d) e = refl

  -- While the monitor sleeps, the others change no node.
  abbrev pub Still : Type 0
  Still = (n : ℕ) (s : zk.Store) (p : Bytes) → node (zk.meanwhile n s) p ≡ node s p

  written : (o : Option Bytes) (d : Bytes) → is_ok o ≡ true → Option.map (λ _. d) o ≡ some d
  written none d e = absurd (cc)
  written (some c) d e = refl

  -- A path that is no worker's.
  abbrev pub Elsewhere : Bytes → Type 0
  Elsewhere p = (wk : Bytes) → bytes_eq (child g_path_works wk) p ≡ false

  -- What setting a worker's node keeps, the stop commands keep.
  pub stop_all-Closed :
      (J : zk.Store → Type 0) (wks : List Bytes) (s : zk.Store)
      → ((wk : Bytes) → SetClosed zk J (child g_path_works wk))
      → J s
      → J (stop_all laws wks s)
  stop_all-Closed J [] s closed h = h
  stop_all-Closed J (wk ∷ wks) s closed h =
      stop_all-Closed J wks (told wk s) closed (closed wk s (pad 512 stop_command) (omega arith) h)

  -- So do the commands of the pairs, where a wait keeps it too.
  pub issue-Closed :
      (J : zk.Store → Type 0) (fls wks : List Bytes) (s : zk.Store)
      → ((wk : Bytes) → SetClosed zk J (child g_path_works wk))
      → WaitClosed zk J
      → All Sendable fls
      → J s
      → J (issue laws (deal fls wks) s)
  issue-Closed J [] wks s closed wait c h = h
  issue-Closed J (fl ∷ fls) [] s closed wait c h = h
  issue-Closed J (fl ∷ fls) (wk ∷ wks) s closed wait (c, cs) h =
      issue-Closed J fls wks (handed laws fl wk s) closed wait cs
        (wait 10 _ (closed wk s (pad 512 (sent fl)) (omega (arith, sent-first fl c)) h))

  module _ (still : Still) where
    handed_other :
        (fl wk k : Bytes) (s : zk.Store)
        → wk ≢ k
        → node (handed laws fl wk s) (child g_path_works k) ≡ node s (child g_path_works k)
    handed_other fl wk k s h =
        still 10 _ (child g_path_works k)
        ∙ node-set s (child g_path_works wk) (pad 512 (sent fl)) (child g_path_works k)
        ∙ rw (child_ne g_path_works wk k h) refl

    handed_self :
        (fl wk : Bytes) (s : zk.Store)
        → There s wk
        → node (handed laws fl wk s) (child g_path_works wk) ≡ some (pad 512 (sent fl))
    handed_self fl wk s h =
        still 10 _ (child g_path_works wk)
        ∙ node-set s (child g_path_works wk) (pad 512 (sent fl)) (child g_path_works wk)
        ∙ rw (bytes_eq_refl (child g_path_works wk)) (written (node s (child g_path_works wk)) _ h)

    -- The pairs touch no worker but those of the list.
    issue_other :
        (k : Bytes) (fls wks : List Bytes) (s : zk.Store)
        → All (λ j. k ≢ j) wks
        → node (issue laws (deal fls wks) s) (child g_path_works k) ≡ node s (child g_path_works k)
    issue_other k [] wks s h = refl
    issue_other k (fl ∷ fls) [] s h = refl
    issue_other k (fl ∷ fls) (wk ∷ wks) s (h, hs) =
        issue_other k fls wks (handed laws fl wk s) hs ∙ handed_other fl wk k s (λ e. h (sym e))

    after_There :
        (fl wk : Bytes) (wks : List Bytes) (s : zk.Store)
        → All (λ j. wk ≢ j) wks
        → All (There s) wks
        → All (There (handed laws fl wk s)) wks
    after_There fl wk [] s h t = tt
    after_There fl wk (j ∷ wks) s (h, hs) (t, ts) =
        (ap is_ok (handed_other fl wk j s h) ∙ t, after_There fl wk wks s hs ts)

    -- The worker of a pair has the command for the file of the pair.
    pub issue-sent :
        (f k : Bytes) (fls wks : List Bytes) (s : zk.Store)
        → Distinct wks
        → All (There s) wks
        → In (f, k) (deal fls wks)
        → node (issue laws (deal fls wks) s) (child g_path_works k) ≡ some (pad 512 (sent f))
    issue-sent f k [] wks s d t i = absurd i
    issue-sent f k (fl ∷ fls) [] s d t i = absurd i
    issue-sent f k (fl ∷ fls) (wk ∷ wks) s (h, d) (t, ts) (inl here) =
        let same_file : fl ≡ f = ap (λ p. p.0) here in
        let same_worker : wk ≡ k = ap (λ p. p.1) here in
        subst
          (λ j.
            node (issue laws (deal fls wks) (handed laws fl wk s)) (child g_path_works j)
            ≡ some (pad 512 (sent f)))
          same_worker
          (issue_other wk fls wks (handed laws fl wk s) h
            ∙ handed_self fl wk s t
            ∙ ap (λ g. some (pad 512 (sent g))) same_file)
    issue-sent f k (fl ∷ fls) (wk ∷ wks) s (h, d) (t, ts) (inr later) =
        issue-sent f k fls wks (handed laws fl wk s) d (after_There fl wk wks s h ts) later

-- The two of a pair come from the two lists.
pub In-deal : (f k : Bytes) (fls wks : List Bytes) → In (f, k) (deal fls wks) → In f fls × In k wks
In-deal f k [] wks i = absurd i
In-deal f k (fl ∷ fls) [] i = absurd i
In-deal f k (fl ∷ fls) (wk ∷ wks) (inl here) = (inl (ap (λ p. p.0) here), inl (ap (λ p. p.1) here))
In-deal f k (fl ∷ fls) (wk ∷ wks) (inr later) =
    let (file, worker) = In-deal f k fls wks later in (inr file, inr worker)

All-drop : (P : Bytes → Type 0) (n : ℕ) (xs : List Bytes) → All P xs → All P (drop n xs)
All-drop P zero xs h = h
All-drop P (suc n) [] h = tt
All-drop P (suc n) (x ∷ xs) h = All-drop P n xs h.1

-- A worker that got a file is none of those that are told to stop.
pub deal_dropped :
    (f k : Bytes) (fls wks : List Bytes)
    → Distinct wks
    → In (f, k) (deal fls wks)
    → All (λ j. k ≢ j) (drop (length fls) wks)
deal_dropped f k [] wks d i = absurd i
deal_dropped f k (fl ∷ fls) [] d i = absurd i
deal_dropped f k (fl ∷ fls) (wk ∷ wks) (h, d) (inl here) =
    All-drop (λ j. k ≢ j) (length fls) wks
      (subst (λ x. All (λ j. x ≢ j) wks) (ap (λ p. p.1) here) h)
deal_dropped f k (fl ∷ fls) (wk ∷ wks) (h, d) (inr later) = deal_dropped f k fls wks d later
