-- ===== src/Examples/Recovery.antt =====
-- The theorems about _file_recovery/re_file.cpp, applied.
use distributed_task_dispath.Prelude.{
  some_inj, sum, SameItems, ℕ, ◌≤◌, true, false, List, [], ◌∷◌, Option, none, some, ◌≡◌, refl, ◌∙◌,
  arith, ◌==◌, All, inl, inr, if◌then◌else◌, replicate, ltb→lt, Bool-cases, ap, subst,
}
use distributed_task_dispath.Prelude.Int.{ℤ, pos, negsuc}
use distributed_task_dispath.Bytes.{Bytes, codes, find}
use distributed_task_dispath.Bytes.Decimal.{atoi}
use distributed_task_dispath.Recovery.{line_num, sort_nodes, sort_file}
use distributed_task_dispath.Recovery.Queue.{PriorityQueue, Entry, lez, lez_refl, lez_trans}
use distributed_task_dispath.Recovery.Merge.{ascending}
use distributed_task_dispath.Recovery.Output.{sort_nodes-merges}
use distributed_task_dispath.Recovery.Picked.{numbered}
use distributed_task_dispath.Recovery.Once.{
  with_task, sort_file-writes_each_number_once, sort_file-leaves_line_flag,
}
use distributed_task_dispath.Recovery.Opened.{joined}

pub lez_other : (a b : ℤ) → lez a b ≡ false → lez b a ≡ true
lez_other (pos a) (pos b) h = ground arith
lez_other (pos a) (negsuc b) h = refl
lez_other (negsuc a) (pos b) h = cc
lez_other (negsuc a) (negsuc b) h = ground arith

-- A least entry of a list that is not empty, and the others.
abbrev least_of : Entry → List Entry → Entry × List Entry
least_of x [] = (x, [])
least_of x (y ∷ ys) =
    let with_x = least_of x ys in
    let with_y = least_of y ys in
    if lez x.1 y.1 then (with_x.0, y ∷ with_x.1) else (with_y.0, x ∷ with_y.1)

abbrev pop_list : List Entry → Option (Entry × List Entry)
pop_list [] = none
pop_list (x ∷ xs) = some (least_of x xs)

least_of_items :
    (g : Entry → ℕ) (x : Entry) (ys : List Entry)
    → sum g (x ∷ ys) ≡ sum g ((least_of x ys).0 ∷ (least_of x ys).1)
least_of_items g x [] = refl
least_of_items g x (y ∷ ys) = elim (Bool-cases (lez x.1 y.1)) [
  | inl low ↦ rw low (omega (arith, least_of_items g x ys))
  | inr high ↦ rw high (omega (arith, least_of_items g y ys))
]

least_of_least :
    (x : Entry) (ys : List Entry)
    → (lez (least_of x ys).0.1 x.1 ≡ true)
      × All (λ y. lez (least_of x ys).0.1 y.1 ≡ true) (least_of x ys).1
least_of_least x [] = (lez_refl x.1, tt)
least_of_least x (y ∷ ys) = elim (Bool-cases (lez x.1 y.1)) [
  | inl low ↦
      let (head, rest) = least_of_least x ys in rw low (head, (lez_trans _ x.1 y.1 head low, rest))
  | inr high ↦
      let (head, rest) = least_of_least y ys in
      let under = lez_trans (least_of y ys).0.1 y.1 x.1 head (lez_other x.1 y.1 high) in
      rw high (under, (under, rest))
]

pub items-pop_list : (q r : List Entry) (x : Entry) → pop_list q ≡ some (x, r) → SameItems q (x ∷ r)
items-pop_list [] r x e g = absurd (cc)
items-pop_list (y ∷ ys) r x e g = least_of_items g y ys ∙ ap (λ p. sum g (p.0 ∷ p.1)) (some_inj e)

pub pop_list_least :
    (q r : List Entry) (x : Entry) → pop_list q ≡ some (x, r) → All (λ y. lez x.1 y.1 ≡ true) r
pop_list_least [] r x e = absurd (cc)
pop_list_least (y ∷ ys) r x e =
    subst (λ p. All (λ y. lez p.0.1 y.1 ≡ true) p.1) (some_inj e) ((least_of_least y ys).1)

pub pop_list-none : (q : List Entry) → pop_list q ≡ none → q ≡ []
pop_list-none [] e = refl
pop_list-none (y ∷ ys) e = absurd (cc)

abbrev pub queue : PriorityQueue
queue = record {
  Queue = List Entry;
  empty = [];
  push = ◌∷◌;
  pop = pop_list;
  items = λ q. q;
  items-empty = refl;
  items-push = λ x q g. refl;
  items-pop = items-pop_list;
  pop_least = pop_list_least;
  pop_none = pop_list-none;
}

-- Three blocks of a node; line 2 stands in two of them.
abbrev blocks : List (List Bytes)
blocks =
    (codes ",1,a" ∷ codes ",4,d" ∷ [])
    ∷ (codes ",2,b" ∷ [])
    ∷ (codes ",2,b" ∷ codes ",3,c" ∷ [])
    ∷ []

sort_nodes-merges_example :
    (out : List Bytes) × ((sort_nodes queue 6 blocks ≡ some out)
      × ((ascending out ≡ true) × SameItems out (joined blocks)))
unfolding line_num find atoi
sort_nodes-merges_example = sort_nodes-merges queue 6 blocks refl (omega arith)

sort_file-writes_each_number_once_example :
    (picked : List Bytes) × ((sort_file queue 6 (pos 7) (replicate 5 false) blocks
        ≡ some (with_task (pos 7) picked))
      × ((ascending picked ≡ true)
          × (((g : Bytes → ℕ) → sum g picked ≤ sum g (joined blocks))
              × ((m : ℕ)
                  → sum (numbered m) picked
                    ≡ (if sum (numbered m) (joined blocks) == 0 then 0 else 1)))))
unfolding line_num find atoi
sort_file-writes_each_number_once_example =
    sort_file-writes_each_number_once queue 6 (pos 7) (replicate 5 false) blocks refl (omega arith)
      refl refl

-- The array is one too short for line 4.
sort_file-leaves_line_flag_example : sort_file queue 6 (pos 7) (replicate 4 false) blocks ≡ none
unfolding line_num find atoi
sort_file-leaves_line_flag_example =
    sort_file-leaves_line_flag queue 6 (pos 7) (replicate 4 false) blocks refl (omega arith)
      (ltb→lt 0 1 refl)
