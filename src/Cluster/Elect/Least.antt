-- ===== src/Cluster/Elect/Least.antt =====
-- The least name of a list, in the order of `strcmp`.
use distributed_task_dispath.Prelude.{
  All-In, true, false, List, [], ◌∷◌, ◌≡◌, refl, inl, inr, arith, Bool-cases, All, In, subst, sym,
}
use distributed_task_dispath.Bytes.{Bytes, strcmp_gt}
use distributed_task_dispath.Cluster.Elect.{least}

pub strcmp_refl : (a : Bytes) → strcmp_gt a a ≡ false
unfolding strcmp_gt
strcmp_refl [] = refl
strcmp_refl (x ∷ a) = ground (arith, strcmp_refl a)

strcmp_trans :
    (a b c : Bytes) → strcmp_gt a b ≡ false → strcmp_gt b c ≡ false → strcmp_gt a c ≡ false
unfolding strcmp_gt
strcmp_trans [] b c h k = refl
strcmp_trans (x ∷ a) [] c h k = cc
strcmp_trans (x ∷ a) (y ∷ b) [] h k = cc
strcmp_trans (x ∷ a) (y ∷ b) (z ∷ c) h k = ground (arith, strcmp_trans a b c)

strcmp_flip : (a b : Bytes) → strcmp_gt a b ≡ true → strcmp_gt b a ≡ false
unfolding strcmp_gt
strcmp_flip [] b h = cc
strcmp_flip (x ∷ a) [] h = refl
strcmp_flip (x ∷ a) (y ∷ b) h = ground (arith, strcmp_flip a b)

strcmp_antisym : (a b : Bytes) → strcmp_gt a b ≡ false → strcmp_gt b a ≡ false → a ≡ b
unfolding strcmp_gt
strcmp_antisym [] [] h k = refl
strcmp_antisym [] (y ∷ b) h k = cc
strcmp_antisym (x ∷ a) [] h k = cc
strcmp_antisym (x ∷ a) (y ∷ b) h k = ground (arith, strcmp_antisym a b)

-- No name of the list is before `m`.
abbrev pub IsLeast : Bytes → List Bytes → Type 0
IsLeast m = All (λ q. strcmp_gt m q ≡ false)

least_later : (m p : Bytes) (ps : List Bytes) → strcmp_gt m p ≡ true → least m (p ∷ ps) ≡ least p ps
unfolding least
least_later m p ps h = rw h

least_keep : (m p : Bytes) (ps : List Bytes) → strcmp_gt m p ≡ false → least m (p ∷ ps) ≡ least m ps
unfolding least
least_keep m p ps h = rw h

least-nil : (m : Bytes) → least m [] ≡ m
unfolding least
least-nil m = refl

least-IsLeast : (m : Bytes) (ps : List Bytes) → IsLeast (least m ps) (m ∷ ps)
least-IsLeast m [] = rw least-nil (strcmp_refl m, tt)
least-IsLeast m (p ∷ ps) = elim (Bool-cases (strcmp_gt m p)) [
  | inl after ↦
      let (below, rest) = least-IsLeast p ps in
      subst (λ x. IsLeast x (m ∷ p ∷ ps)) (sym (least_later m p ps after))
        (strcmp_trans _ p m below (strcmp_flip m p after), (below, rest))
  | inr before ↦
      let (below, rest) = least-IsLeast m ps in
      subst (λ x. IsLeast x (m ∷ p ∷ ps)) (sym (least_keep m p ps before))
        (below, (strcmp_trans _ m p below before, rest))
]

skip : {x : Bytes} (m p : Bytes) (ps : List Bytes) → In x (m ∷ ps) → In x (m ∷ p ∷ ps)
skip m p ps (inl e) = inl e
skip m p ps (inr i) = inr (inr i)

least-In : (m : Bytes) (ps : List Bytes) → In (least m ps) (m ∷ ps)
least-In m [] = inl (sym (least-nil m))
least-In m (p ∷ ps) = elim (Bool-cases (strcmp_gt m p)) [
  | inl after ↦
      subst (λ x. In x (m ∷ p ∷ ps)) (sym (least_later m p ps after)) (inr (least-In p ps))
  | inr before ↦
      subst (λ x. In x (m ∷ p ∷ ps)) (sym (least_keep m p ps before)) (skip m p ps (least-In m ps))
]

-- The loop finds the least name of the list, which is one only.
pub least_unique :
    (m p : Bytes) (ps : List Bytes) → In m (p ∷ ps) → IsLeast m (p ∷ ps) → least p ps ≡ m
least_unique m p ps i h =
    strcmp_antisym (least p ps) m
      (All-In (λ q. strcmp_gt (least p ps) q ≡ false) (p ∷ ps) i (least-IsLeast p ps))
      (All-In (λ q. strcmp_gt m q ≡ false) (p ∷ ps) (least-In p ps) h)
