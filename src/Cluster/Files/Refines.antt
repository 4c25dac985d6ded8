-- ===== src/Cluster/Files/Refines.antt =====
-- The file operations keep a map from the files to statuses of one byte: `st` stores the first byte of
-- its text alone, where _zk_server/clust_comm.h promises a machine's number behind it.
use mathlib.Core.Option
use distributed_task_dispath.Prelude.{
  ℕ, Bool, true, false, List, [], ◌∷◌, Option, none, some, ◌≡◌, ◌≢◌, refl, ap, sym, subst, ◌∙◌, inl,
  inr, arith, All, if◌then◌else◌, Bool-cases, Option-cases,
}
use distributed_task_dispath.Bytes.{Bytes, codes, bytes_eq}
use distributed_task_dispath.Bytes.Equality.{bytes_eq_refl, bytes_eq→eq, bytes_eq_iff}
use distributed_task_dispath.Bytes.Search.{Lacks}
use distributed_task_dispath.Zookeeper.{Zookeeper, World, is_ok, zoo_get, zoo_set, zoo_create}
use distributed_task_dispath.Zookeeper.Laws.{Laws}
use distributed_task_dispath.Cluster.Paths.{g_path_files, child, child_ne}
use distributed_task_dispath.Cluster.Files.{insr2clst, st, gt}
use distributed_task_dispath.Cluster.Files.Status.{shown, gt-shown, shown-none, one_byte, made}

-- A call of insr2clst, st or gt. The text of st begins with a byte.
pub data Operation : Type 0 where
  inserts : Bytes → Operation
  sets : Bytes → ℕ → Bytes → Operation
  gets : Bytes → Operation

-- The map: no status for a file that is not there.
abbrev pub Statuses : Type 0
Statuses = Bytes → Option ℕ

-- A new file waits.
abbrev pub or_waits : Option ℕ → Option ℕ
or_waits none = some b'r'
or_waits (some c) = some c

abbrev pub status_text : Option ℕ → Bytes
status_text none = []
status_text (some c) = c ∷ []

abbrev pub insert_status : Bytes → Statuses → Statuses
insert_status f m q = if bytes_eq f q then or_waits (m q) else m q

abbrev pub set_status : Bytes → ℕ → Statuses → Statuses
set_status f c m q = if bytes_eq f q then Option.map (λ _. c) (m q) else m q

-- What `gt` shows in a run, and the map at its end.
abbrev pub run_map : List Operation → Statuses → List Bytes × Statuses
run_map [] m = ([], m)
run_map (inserts f ∷ ops) m = run_map ops (insert_status f m)
run_map (sets f c v ∷ ops) m = run_map ops (set_status f c m)
run_map (gets f ∷ ops) m =
    let (shown_rest, m') = run_map ops m in (status_text (m f) ∷ shown_rest, m')

-- A run of calls of the code.
unfoldable pub run_files : (zk : Zookeeper) → List Operation → World zk → List Bytes × World zk
unfolding insr2clst st gt
run_files zk [] w = ([], w)
run_files zk (inserts f ∷ ops) w = run_files zk ops (insr2clst zk f w)
run_files zk (sets f c v ∷ ops) w = run_files zk ops (st zk f (c ∷ v) w)
run_files zk (gets f ∷ ops) w =
    let (value, w1) = gt zk f w in
    let (shown_rest, w2) = run_files zk ops w1 in (value ∷ shown_rest, w2)

-- A file's name holds no slash, and a status is not zero.
abbrev pub IsProper : Operation → Type 0
IsProper (inserts f) = Lacks b'/' f
IsProper (sets f c v) = c ≢ 0
IsProper (gets f) = Unit

same_file : (a b : Bytes) → bytes_eq (child g_path_files a) (child g_path_files b) ≡ bytes_eq a b
same_file a b = elim (Bool-cases (bytes_eq a b)) [
  | inl same ↦ rw (bytes_eq→eq a b same, bytes_eq_refl b, bytes_eq_refl (child g_path_files b)) refl
  | inr other ↦
      rw other (child_ne g_path_files a b (λ e. ground (arith, other, bytes_eq_iff a b, e)))
]

insert_status_taken :
    (f q : Bytes) (m : Statuses) (c : ℕ) → m f ≡ some c → insert_status f m q ≡ m q
insert_status_taken f q m c e = elim (Bool-cases (bytes_eq f q)) [
  | inl same ↦ let here = ap m (sym (bytes_eq→eq f q same)) ∙ e in rw (same, here) refl
  | inr other ↦ rw other refl
]

insert_status_fresh :
    (f q : Bytes) (m : Statuses)
    → m f ≡ none
    → insert_status f m q ≡ (if bytes_eq f q then some b'r' else m q)
insert_status_fresh f q m e = elim (Bool-cases (bytes_eq f q)) [
  | inl same ↦ let here = ap m (sym (bytes_eq→eq f q same)) ∙ e in rw (same, here) refl
  | inr other ↦ rw other refl
]

not_root : (a : Bytes) → bytes_eq (child g_path_files a) g_path_files ≡ false
unfolding child
not_root a = ground arith

module _ {zk : Zookeeper} (laws : Laws zk) where
  open laws use {node, get_lem, node-set, node-create, create_taken}

  -- The store holds the statuses of the map, and /files is there.
  pub record Holds (s : zk.Store) (m : Statuses) : Type 0 where
    pub root : is_ok (node s g_path_files) ≡ true
    pub statuses : (f : Bytes) → node s (child g_path_files f) ≡ Option.map (λ c. c ∷ []) (m f)
    pub proper : (f : Bytes) → m f ≢ some 0

  shown_status : (o : Option ℕ) → o ≢ some 0 → shown (Option.map (λ c. c ∷ []) o) ≡ status_text o
  shown_status none h = shown-none
  shown_status (some c) h = one_byte c (λ e. h (ap some e))

  gt-Holds :
      (f : Bytes) (w : World zk) (m : Statuses)
      → Holds w.store m
      → ((gt zk f w).0 ≡ status_text (m f)) × ((gt zk f w).1.store ≡ w.store)
  unfolding gt zoo_get
  gt-Holds f w m h =
      (gt-shown laws f w ∙ ap shown (h.statuses f) ∙ shown_status (m f) (h.proper f), refl)

  st-Holds :
      (f : Bytes) (c : ℕ) (v : Bytes) (w : World zk) (m : Statuses)
      → c ≢ 0
      → Holds w.store m
      → Holds (st zk f (c ∷ v) w).store (set_status f c m)
  unfolding st zoo_set
  st-Holds f c v w m nonzero h = record {
    root = rw (node-set w.store (child g_path_files f) (c ∷ []) g_path_files, not_root f) h.root;
    statuses = λ q.
        node-set w.store (child g_path_files f) (c ∷ []) (child g_path_files q)
        ∙ rw (same_file f q, h.statuses q) (by_status (bytes_eq f q) (m q));
    proper = λ q. by_proper (bytes_eq f q) (m q) (h.proper q);
  }
    where
      by_status :
          (b : Bool) (o : Option ℕ)
          → (if b
              then Option.map (λ _. c ∷ []) (Option.map (λ c. c ∷ []) o)
              else Option.map (λ c. c ∷ []) o)
            ≡ Option.map (λ c. c ∷ []) (if b then Option.map (λ _. c) o else o)
      by_status true none = refl
      by_status true (some a) = refl
      by_status false o = refl

      by_proper :
          (b : Bool) (o : Option ℕ) → o ≢ some 0 → (if b then Option.map (λ _. c) o else o) ≢ some 0
      by_proper true none p e = absurd (cc)
      by_proper true (some a) p e = nonzero (cc)
      by_proper false o p e = p e

  pub insr2clst-Holds :
      (f : Bytes) (w : World zk) (m : Statuses)
      → Lacks b'/' f
      → Holds w.store m
      → Holds (insr2clst zk f w).store (insert_status f m)
  unfolding insr2clst zoo_create
  insr2clst-Holds f w m lacks h = elim (Option-cases (m f)) [
    | inr (c, e) ↦
        let there = ap is_ok (h.statuses f ∙ ap (Option.map (λ c. c ∷ [])) e) in
        let same = ap (λ r. r.0) (create_taken w.store (child g_path_files f) (codes "r") there) in
        record {
          root = rw same h.root;
          statuses = λ q.
              rw same (
                h.statuses q ∙ ap (Option.map (λ c. c ∷ [])) (sym (insert_status_taken f q m c e)));
          proper = λ q p. h.proper q (sym (insert_status_taken f q m c e) ∙ p);
        }
    | inl e ↦
        let fresh = ap is_ok (h.statuses f ∙ ap (Option.map (λ c. c ∷ [])) e) in
        let ok = made laws f w lacks h.root fresh in
        record {
          root =
              rw
                (
                  node-create w.store (child g_path_files f) (codes "r") g_path_files,
                  not_root f,
                  ok,
                )
                h.root;
          statuses = λ q.
              node-create w.store (child g_path_files f) (codes "r") (child g_path_files q)
              ∙ rw (ok, same_file f q, h.statuses q, insert_status_fresh f q m e)
                  (by_test (bytes_eq f q) (m q));
          proper = λ q p.
              by_proper (bytes_eq f q) (m q) (h.proper q) (sym (insert_status_fresh f q m e) ∙ p);
        }
  ]
    where
      by_test :
          (b : Bool) (o : Option ℕ)
          → (if b then some (b'r' ∷ []) else Option.map (λ c. c ∷ []) o)
            ≡ Option.map (λ c. c ∷ []) (if b then some b'r' else o)
      by_test true o = refl
      by_test false o = refl

      by_proper : (b : Bool) (o : Option ℕ) → o ≢ some 0 → (if b then some b'r' else o) ≢ some 0
      by_proper true o p e = absurd (ground (arith, e))
      by_proper false o p e = p e

  -- Let the store hold the statuses of a map, with the node /files, and let the operations name files
  -- without a slash and texts whose first byte is not zero. Then a run of insr2clst, st and gt shows
  -- what the map shows, in which st keeps the first byte and drops the rest, and the store holds the
  -- statuses of the map afterwards.
  pub run_files-refines :
      (ops : List Operation) (w : World zk) (m : Statuses)
      → All IsProper ops
      → Holds w.store m
      → ((run_files zk ops w).0 ≡ (run_map ops m).0)
        × Holds (run_files zk ops w).1.store (run_map ops m).1
  unfolding run_files
  run_files-refines [] w m proper h = (refl, h)
  run_files-refines (inserts f ∷ ops) w m (p, ps) h =
      run_files-refines ops (insr2clst zk f w) (insert_status f m) ps (insr2clst-Holds f w m p h)
  run_files-refines (sets f c v ∷ ops) w m (p, ps) h =
      run_files-refines ops (st zk f (c ∷ v) w) (set_status f c m) ps (st-Holds f c v w m p h)
  run_files-refines (gets f ∷ ops) w m (p, ps) h =
      let (value, same) = gt-Holds f w m h in
      let (rest, after) =
        run_files-refines ops (gt zk f w).1 m ps (subst (λ s. Holds s m) (sym same) h) in
      (rw (value, rest) refl, after)
