-- ===== src/Examples/Joining.antt =====
-- The service of the examples has what the program relies on when a process joins.
use distributed_task_dispath.Prelude.{
  ◌∙◌, sym, ltb, ◌⊎◌, some_inj, ◌≤◌, ℕ, zero, suc, ◌<◌, Bool, true, false, ◌&&◌, List, [], ◌∷◌,
  ◌++◌, none, some, ◌≡◌, ◌≢◌, refl, ap, inl, inr, arith, ◌==◌, if◌then◌else◌, length, length-append,
  length-replicate, replicate, append_assoc, Bool-cases, All-append, All-intro, In,
}
use distributed_task_dispath.Bytes.{Bytes, bytes_eq}
use distributed_task_dispath.Bytes.Equality.{bytes_eq→eq}
use distributed_task_dispath.Bytes.Search.{Lacks}
use distributed_task_dispath.Zookeeper.{is_ok, persistent, ephemeral_sequence}
use distributed_task_dispath.Zookeeper.Joining.{Joining, Listed}
use distributed_task_dispath.Bytes.{strcmp_gt}
use distributed_task_dispath.Cluster.Paths.{child}
use distributed_task_dispath.Examples.Service.{
  Nodes, service, service_laws, lookup, children, name_below, with_name, has_slash, bulk, unused,
}

slash_free : (n : Bytes) → Lacks b'/' n → has_slash n ≡ false
slash_free [] h = refl
slash_free (c ∷ n) h = ground (arith, slash_free n h.1)

slash_inside : (p n : Bytes) → has_slash (p ++ b'/' ∷ n) ≡ true
slash_inside [] n = refl
slash_inside (c ∷ p) n = ground (arith, slash_inside p n)

name_here : (q n : Bytes) → Lacks b'/' n → name_below q (q ++ b'/' ∷ n) ≡ some n
name_here [] n h = rw (slash_free n h) refl
name_here (x ∷ q) n h = ground (arith, name_here q n h)

name_free : (q n : Bytes) → Lacks b'/' n → name_below q n ≡ none
name_free q [] h = refl
name_free [] (c ∷ n) h = ground (arith, h.0)
name_free (x ∷ q) (c ∷ n) h = ground (arith, name_free q n h.1)

never : (s : Bytes) (b : Bool) → (if b && false then some s else none) ≡ none
never s true = refl
never s false = refl

name_elsewhere :
    (q p n : Bytes) → Lacks b'/' n → bytes_eq p q ≡ false → name_below q (p ++ b'/' ∷ n) ≡ none
name_elsewhere [] [] n h e = absurd (cc)
name_elsewhere [] (y ∷ p) n h e = rw (slash_inside p n) (never (p ++ b'/' ∷ n) (y == b'/'))
name_elsewhere (x ∷ q) [] n h e = ground (arith, name_free q n h)
name_elsewhere (x ∷ q) (y ∷ p) n h e = ground (arith, e, name_elsewhere q p n h)

lookup_long : (s : Nodes) (q : Bytes) → bulk s < length q → lookup s q ≡ none
lookup_long [] q h = refl
lookup_long ((p, d) ∷ s) q h = elim (Bool-cases (bytes_eq p q)) [
  | inl same ↦ absurd (omega (arith, ap (λ r. length r) (bytes_eq→eq p q same)))
  | inr other ↦ rw other (lookup_long s q (omega arith))
]

unused-Lacks : (k : ℕ) → Lacks b'/' (replicate k b'0')
unused-Lacks zero = tt
unused-Lacks (suc k) = (omega arith, unused-Lacks k)

listed :
    (s : Nodes) (parent n : Bytes) (names : List Bytes)
    → some (children s parent) ≡ some names
    → Lacks b'/' n
    → Listed n names (some (with_name (name_below parent (parent ++ b'/' ∷ n)) (children s parent)))
listed s parent n names e l =
    let ms : List Bytes = n ∷ names in
    (
      ms,
      rw (name_here parent n l, some_inj e) refl,
      All-intro (λ m. In m ms) ms λ m i. i,
      All-intro (λ m. In m ms) ms λ m i. i,
    )

abbrev pub next : Nodes → Bytes → Bytes → Bytes
next s parent begin = begin ++ unused s

-- The path that `zoo_create` makes is the one that the name gives.
made_path :
    (s : Nodes) (parent begin : Bytes)
    → child parent begin ++ unused s ≡ child parent (next s parent begin)
unfolding child
made_path s parent begin = append_assoc parent (b'/' ∷ begin) (unused s)

next-Lacks :
    (s : Nodes) (parent begin : Bytes) → Lacks b'/' begin → Lacks b'/' (next s parent begin)
next-Lacks s parent begin l = All-append _ begin (unused s) l (unused-Lacks (suc (bulk s)))

pub next_unused :
    (s : Nodes) (parent begin : Bytes) → lookup s (child parent (next s parent begin)) ≡ none
unfolding child
next_unused s parent begin = lookup_long s (parent ++ b'/' ∷ (begin ++ unused s)) (
    omega (
      arith,
      length-append parent (b'/' ∷ (begin ++ unused s)),
      length-append begin (unused s),
      length-replicate {A = ℕ} (suc (bulk s)) b'0',
    ))

pub node_next :
    (s : Nodes) (parent begin d q : Bytes)
    → is_ok (lookup s parent) ≡ true
    → lookup (service.create s (child parent begin) d ephemeral_sequence).0 q
      ≡ (if bytes_eq (child parent (next s parent begin)) q then some d else lookup s q)
node_next s parent begin d q there = rw (made_path s parent begin) refl

pub children_next :
    (s : Nodes) (parent begin d : Bytes) (names : List Bytes)
    → is_ok (lookup s parent) ≡ true
    → Lacks b'/' begin
    → some (children s parent) ≡ some names
    → Listed
        (next s parent begin)
        names
        (service.get_children (service.create s (child parent begin) d ephemeral_sequence).0 parent)
unfolding child
children_next s parent begin d names there l e =
    rw (made_path s parent begin, child)
      (listed s parent (next s parent begin) names e (next-Lacks s parent begin l))

pub children_next_other :
    (s : Nodes) (parent begin d q : Bytes)
    → is_ok (lookup s q) ≡ true
    → Lacks b'/' begin
    → bytes_eq parent q ≡ false
    → service.get_children (service.create s (child parent begin) d ephemeral_sequence).0 q
      ≡ service.get_children s q
unfolding child
children_next_other s parent begin d q there l e =
    rw
      (
        made_path s parent begin,
        child,
        name_elsewhere q parent (next s parent begin) (next-Lacks s parent begin l) e,
      )
      refl

pub children_create :
    (s : Nodes) (parent name d : Bytes) (names : List Bytes)
    → is_ok (lookup s parent) ≡ true
    → lookup s (child parent name) ≡ none
    → Lacks b'/' name
    → some (children s parent) ≡ some names
    → Listed name names
        (service.get_children (service.create s (child parent name) d persistent).0 parent)
unfolding child
children_create s parent name d names there fresh l e = rw fresh (listed s parent name names e l)

pub children_create_other :
    (s : Nodes) (parent name d q : Bytes)
    → is_ok (lookup s q) ≡ true
    → Lacks b'/' name
    → bytes_eq parent q ≡ false
    → service.get_children (service.create s (child parent name) d persistent).0 q
      ≡ service.get_children s q
unfolding child
children_create_other s parent name d q there l e =
    elim (Bool-cases (is_ok (lookup s (child parent name)))) [
      | inl taken ↦ rw taken refl
      | inr fresh ↦ rw (fresh, name_elsewhere q parent name l e) refl
    ]

same_begin : (b x y : Bytes) → strcmp_gt (b ++ x) (b ++ y) ≡ strcmp_gt x y
unfolding strcmp_gt
same_begin [] x y = refl
same_begin (c ∷ b) x y = ground (arith, same_begin b x y)

more_zeros : (j k : ℕ) → j ≤ k → strcmp_gt (replicate j b'0') (replicate k b'0') ≡ false
unfolding strcmp_gt
more_zeros zero k h = refl
more_zeros (suc j) zero h = absurd (omega arith)
more_zeros (suc j) (suc k) h = more_zeros j k (omega arith)

pub next_later :
    (s t : Nodes) (parent begin : Bytes)
    → is_ok (lookup t (child parent (next s parent begin))) ≡ true
    → strcmp_gt (next s parent begin) (next t parent begin) ≡ false
unfolding child
next_later s t parent begin there =
    same_begin begin (unused s) (unused t)
    ∙ more_zeros (suc (bulk s)) (suc (bulk t)) (by_size (Bool-cases (ltb (bulk t) (length path))))
  where
    path : Bytes
    path = parent ++ b'/' ∷ (begin ++ unused s)

    size : suc (bulk s) ≤ length path
    size = omega (
      arith,
      length-append parent (b'/' ∷ (begin ++ unused s)),
      length-append begin (unused s),
      length-replicate {A = ℕ} (suc (bulk s)) b'0',
    )

    no_node : false ≢ true
    no_node e = cc

    by_size :
        (ltb (bulk t) (length path) ≡ true) ⊎ (ltb (bulk t) (length path) ≡ false)
        → suc (bulk s) ≤ suc (bulk t)
    by_size (inl beyond) =
        let gone = lookup_long t path (ground arith) in
        absurd (no_node (sym (ap is_ok gone) ∙ there))
    by_size (inr within) = ground (arith, size)

abbrev pub service_joining : Joining service_laws
service_joining = record {
  next = next;
  next_new = next_unused;
  next_after = next_later;
  node-next = node_next;
  children-next = children_next;
  children-next_other = children_next_other;
  children-create = children_create;
  children-create_other = children_create_other;
}
