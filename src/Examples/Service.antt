-- ===== src/Examples/Service.antt =====
-- A service that has all that the program relies on: a list of paths with their data. The other
-- processes do nothing while one sleeps.
use mathlib.Core.Option
use distributed_task_dispath.Prelude.{
  some_inj, ℕ, suc, ◌+◌, replicate, Bool, true, false, not, ◌&&◌, List, [], ◌∷◌, ◌++◌, Option, none,
  some, ◌≡◌, refl, ap, ◌∙◌, inl, inr, arith, ◌==◌, if◌then◌else◌, take, length, Bool-cases,
  Option-cases, sym, ◌≢◌,
}
use distributed_task_dispath.Bytes.{Bytes, bytes_eq}
use distributed_task_dispath.Bytes.Equality.{bytes_eq→eq}
use distributed_task_dispath.Zookeeper.{
  Zookeeper, CreateMode, persistent, ephemeral_sequence, is_ok,
}
use distributed_task_dispath.Zookeeper.Laws.{Laws}

abbrev pub Nodes : Type 0
Nodes = List (Bytes × Bytes)

abbrev pub lookup : Nodes → Bytes → Option Bytes
lookup [] q = none
lookup ((p, d) ∷ s) q = let rest = lookup s q in if bytes_eq p q then some d else rest

abbrev update : Nodes → Bytes → Bytes → Nodes
update [] q d = []
update ((p, e) ∷ s) q d = let rest = update s q d in (p, if bytes_eq q p then d else e) ∷ rest

abbrev remove : Nodes → Bytes → Nodes
remove [] q = []
remove ((p, d) ∷ s) q = let rest = remove s q in if bytes_eq q p then rest else (p, d) ∷ rest

abbrev pub has_slash : Bytes → Bool
has_slash [] = false
has_slash (c ∷ s) = let rest = has_slash s in if c == b'/' then true else rest

-- The name of the node at the second path, if it stands directly below the first.
abbrev pub name_below : Bytes → Bytes → Option Bytes
name_below p [] = none
name_below [] (c ∷ name) = if c == b'/' && not (has_slash name) then some name else none
name_below (x ∷ p) (c ∷ q) = let rest = name_below p q in if x == c then rest else none

abbrev pub with_name : Option Bytes → List Bytes → List Bytes
with_name none names = names
with_name (some n) names = n ∷ names

abbrev pub children : Nodes → Bytes → List Bytes
children [] q = []
children ((p, d) ∷ s) q = with_name (name_below q p) (children s q)

abbrev is_empty : List Bytes → Bool
is_empty [] = true
is_empty (n ∷ names) = false

abbrev pub bulk : Nodes → ℕ
bulk [] = 0
bulk ((p, d) ∷ s) = length p + bulk s

-- An end of a name that makes it longer than any path.
abbrev pub unused : Nodes → Bytes
unused s = replicate (suc (bulk s)) b'0'

abbrev create : Nodes → Bytes → Bytes → CreateMode → Nodes × Bool
create s p d persistent = if is_ok (lookup s p) then (s, false) else ((p, d) ∷ s, true)
create s p d ephemeral_sequence = ((p ++ unused s, d) ∷ s, true)

abbrev delete : Nodes → Bytes → Nodes × Bool
delete s p =
    if is_ok (lookup s p) && is_empty (children s p) then (remove s p, true) else (s, false)

abbrev pub service : Zookeeper
service = record {
  Store = Nodes;
  get = λ s p n. Option.map (take n) (lookup s p);
  get_children = λ s p. some (children s p);
  has_node = λ s p. is_ok (lookup s p);
  set = λ s p d. (update s p d, is_ok (lookup s p));
  create = create;
  delete = delete;
  meanwhile = λ n s. s;
}

pub lookup-update :
    (s : Nodes) (p d q : Bytes)
    → lookup (update s p d) q
      ≡ (if bytes_eq p q then Option.map (λ _. d) (lookup s q) else lookup s q)
lookup-update [] p d q = ground arith
lookup-update ((r, e) ∷ s) p d q = elim (Bool-cases (bytes_eq r q)) [
  | inl here ↦ rw here (rw (bytes_eq→eq r q here) (by_test (bytes_eq p q)))
  | inr there ↦ rw there (lookup-update s p d q)
]
  where
    by_test : (b : Bool) → some (if b then d else e) ≡ (if b then some d else some e)
    by_test true = refl
    by_test false = refl

pub children-update : (s : Nodes) (p d q : Bytes) → children (update s p d) q ≡ children s q
children-update [] p d q = refl
children-update ((r, e) ∷ s) p d q = ap (with_name (name_below q r)) (children-update s p d q)

pub lookup-remove :
    (s : Nodes) (p q : Bytes) → lookup (remove s p) q ≡ (if bytes_eq p q then none else lookup s q)
lookup-remove [] p q = ground arith
lookup-remove ((r, e) ∷ s) p q = elim (Bool-cases (bytes_eq p r)) [
  | inl gone ↦
      let same = ap (λ t. bytes_eq t q) (bytes_eq→eq p r gone) in
      rw gone (lookup-remove s p q ∙ ground (arith, same))
  | inr stays ↦ elim (Bool-cases (bytes_eq r q)) [
    | inl here ↦
        let other : bytes_eq p q ≡ false = ap (bytes_eq p) (sym (bytes_eq→eq r q here)) ∙ stays in
        rw (stays, here, other)
    | inr there ↦ rw (stays, there) (lookup-remove s p q)
  ]
]

pub children-remove : (s : Nodes) (p q : Bytes) → children s q ≡ [] → children (remove s p) q ≡ []
children-remove [] p q h = refl
children-remove ((r, e) ∷ s) p q h = elim (Option-cases (name_below q r)) [
  | inl none_here ↦
      let rest = children-remove s p q (rw none_here at h) in
      elim (Bool-cases (bytes_eq p r)) [
        | inl gone ↦ rw gone rest
        | inr stays ↦ rw (stays, none_here) rest
      ]
  | inr (n, e) ↦ absurd (nonempty (rw e at h))
]
  where
    nonempty : {n : Bytes} {ns : List Bytes} → (n ∷ ns) ≢ []
    nonempty h = cc

-- A path that does not begin with `p` is none that goes on from `p`.
pub longer_ne :
    (p t q : Bytes) → bytes_eq (take (length p) q) p ≡ false → bytes_eq (p ++ t) q ≡ false
longer_ne [] t q h = absurd (cc)
longer_ne (x ∷ p) t [] h = refl
longer_ne (x ∷ p) t (y ∷ q) h = ground (arith, h, longer_ne p t q)

abbrev pub service_laws : Laws service
service_laws = record {
  node = lookup;
  get_lem = λ s p n. refl;
  node-set = lookup-update;
  children-set = λ s p d q. ap some (children-update s p d q);
  node-delete = node-delete;
  delete_leaf = λ s p there leaf. rw (there, some_inj leaf) refl;
  delete_absent = λ s p gone. rw gone refl;
  delete_parent = delete_parent;
  children-delete = children-delete;
  has_node_lem = λ s p. refl;
  create_taken = λ s p d there. rw there refl;
  node-create = node-create;
  node-create_sequence = λ s p d q h. let other = longer_ne p (unused s) q h in rw other refl;
  create_root = λ s name d l fresh. rw fresh refl;
  create_child = λ s parent name d l there fresh. rw fresh refl;
}
  where
    node-delete :
        (s : Nodes) (p q : Bytes)
        → lookup (delete s p).0 q ≡ (if (delete s p).1 && bytes_eq p q then none else lookup s q)
    node-delete s p q = elim (Bool-cases (is_ok (lookup s p) && is_empty (children s p))) [
      | inl ok ↦ rw ok (lookup-remove s p q)
      | inr no_way ↦ rw no_way refl
    ]

    delete_parent :
        (s : Nodes) (p name : Bytes) (names : List Bytes)
        → some (children s p) ≡ some (name ∷ names)
        → (delete s p).1 ≡ false
    delete_parent s p name names e = elim (Bool-cases (is_ok (lookup s p))) [
      | inl there ↦ rw (there, some_inj e) refl
      | inr absent ↦ rw absent refl
    ]

    children-delete :
        (s : Nodes) (p q : Bytes)
        → bytes_eq p q ≡ false
        → some (children s q) ≡ some []
        → some (children (delete s p).0 q) ≡ some []
    children-delete s p q h leaf =
        elim (Bool-cases (is_ok (lookup s p) && is_empty (children s p))) [
          | inl ok ↦ rw ok (ap some (children-remove s p q (some_inj leaf)))
          | inr no_way ↦ rw no_way leaf
        ]

    node-create :
        (s : Nodes) (p d q : Bytes)
        → lookup (create s p d persistent).0 q
          ≡ (if (create s p d persistent).1 && bytes_eq p q then some d else lookup s q)
    node-create s p d q = elim (Bool-cases (is_ok (lookup s p))) [
      | inl there ↦ rw there refl
      | inr fresh ↦ rw fresh refl
    ]
