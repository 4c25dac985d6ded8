-- ===== src/Recovery/Picked.antt =====
-- The lines that `write_once` of sort_file takes: the first of each number that is not marked.
use distributed_task_dispath.Prelude.{
  sum, ℕ, zero, suc, ◌≤◌, ◌<◌, Bool, true, false, List, [], ◌∷◌, ◌≡◌, refl, ◌∙◌, ◌⊎◌, ap, sym, inl,
  inr, arith, ◌==◌, ltb, if◌then◌else◌, length, get_or, Bool-cases, ◌≢◌, ==_iff,
}
use distributed_task_dispath.Prelude.Int.{ℤ, pos, negsuc}
use distributed_task_dispath.Bytes.{Bytes}
use distributed_task_dispath.Recovery.{line_num, mark}
use distributed_task_dispath.Recovery.Merge.{ascending, below}

-- 1 for a line whose number is no index of an array of length `n`.
abbrev pub outside : ℕ → Bytes → ℕ
outside n line = elim (line_num line) [ pos i ↦ if ltb i n then 0 else 1 | negsuc i ↦ 1 ]

-- 1 for a line with the number `n`.
abbrev pub numbered : ℕ → Bytes → ℕ
numbered n line = elim (line_num line) [ pos i ↦ if i == n then 1 else 0 | negsuc i ↦ 0 ]

abbrev pub set_bit : Bool → ℕ
set_bit b = if b then 1 else 0

-- The lines whose number is not marked yet, the first of each number.
unfoldable pub pick : List Bool → List Bytes → List Bytes
pick flags [] = []
pick flags (l ∷ ls) = elim (line_num l) [
  | pos n ↦ if get_or flags n false then pick flags ls else l ∷ pick (mark flags n) ls
  | negsuc n ↦ pick flags ls
]

pub ℤ-cases : (z : ℤ) → ((n : ℕ) × (z ≡ pos n)) ⊎ ((n : ℕ) × (z ≡ negsuc n))
ℤ-cases (pos n) = inl (n, refl)
ℤ-cases (negsuc n) = inr (n, refl)

pub length-mark : (flags : List Bool) (n : ℕ) → length (mark flags n) ≡ length flags
length-mark [] n = refl
length-mark (b ∷ bs) zero = refl
length-mark (b ∷ bs) (suc n) = ap suc (length-mark bs n)

get_or-mark_self :
    (flags : List Bool) (n : ℕ) → n < length flags → get_or (mark flags n) n false ≡ true
get_or-mark_self [] n h = absurd (omega arith)
get_or-mark_self (b ∷ bs) zero h = refl
get_or-mark_self (b ∷ bs) (suc n) h = get_or-mark_self bs n (omega arith)

get_or-mark_other :
    (flags : List Bool) (n m : ℕ) → n ≢ m → get_or (mark flags n) m false ≡ get_or flags m false
get_or-mark_other [] n m h = refl
get_or-mark_other (b ∷ bs) zero zero h = absurd (h refl)
get_or-mark_other (b ∷ bs) zero (suc m) h = refl
get_or-mark_other (b ∷ bs) (suc n) zero h = refl
get_or-mark_other (b ∷ bs) (suc n) (suc m) h = get_or-mark_other bs n m (λ e. h (ap suc e))

pub sum-pick :
    (g : Bytes → ℕ) (flags : List Bool) (ls : List Bytes) → sum g (pick flags ls) ≤ sum g ls
unfolding pick
sum-pick g flags [] = omega arith
sum-pick g flags (l ∷ ls) = elim (ℤ-cases (line_num l)) [
  | inl (n, e) ↦ elim (Bool-cases (get_or flags n false)) [
    | inl seen ↦ rw (e, seen, pick) (omega (arith, sum-pick g flags ls))
    | inr fresh ↦ rw (e, fresh, pick) (omega (arith, sum-pick g (mark flags n) ls))
  ]
  | inr (n, e) ↦ rw (e, pick) (omega (arith, sum-pick g flags ls))
]

pub pick-ascending :
    (flags : List Bool) (ls : List Bytes) → ascending ls ≡ true → ascending (pick flags ls) ≡ true
unfolding pick
pick-ascending flags [] h = refl
pick-ascending flags (l ∷ ls) h = elim (ℤ-cases (line_num l)) [
  | inl (n, e) ↦ elim (Bool-cases (get_or flags n false)) [
    | inl seen ↦ rw (e, seen, pick) (pick-ascending flags ls (ground arith))
    | inr fresh ↦
        let rest = pick-ascending (mark flags n) ls (ground arith) in
        rw (e, fresh, pick) (ground (arith, rest, sum-pick (below (line_num l)) (mark flags n) ls))
  ]
  | inr (n, e) ↦ rw (e, pick) (pick-ascending flags ls (ground arith))
]

numbered_lem :
    (n : ℕ) (l : Bytes) (i : ℕ) → line_num l ≡ pos i → numbered n l ≡ (if i == n then 1 else 0)
numbered_lem n l i e = rw (e, numbered) refl

module _ (flags : List Bool) (l : Bytes) (ls : List Bytes) (n : ℕ) (e : line_num l ≡ pos n) where
  pick_seen : get_or flags n false ≡ true → pick flags (l ∷ ls) ≡ pick flags ls
  unfolding pick
  pick_seen h = rw (e, h, pick) refl

  pick_fresh : get_or flags n false ≡ false → pick flags (l ∷ ls) ≡ l ∷ pick (mark flags n) ls
  unfolding pick
  pick_fresh h = rw (e, h, pick) refl

  pub inside :
      sum (outside (length flags)) (l ∷ ls) ≡ 0
      → (n < length flags) × (sum (outside (length flags)) ls ≡ 0)
  inside h =
      let here : outside (length flags) l ≡ (if ltb n (length flags) then 0 else 1) =
        rw (e, outside) refl in
      (ground (arith, here), omega arith)

get_or-mark :
    (flags : List Bool) (n m : ℕ)
    → n < length flags
    → get_or (mark flags n) m false ≡ (if n == m then true else get_or flags m false)
get_or-mark flags n m h = elim (Bool-cases (n == m)) [
  | inl same ↦ rw (same) (
      ap (λ k. get_or (mark flags n) k false) (sym ((==_iff n m).0 same))
      ∙ get_or-mark_self flags n h)
  | inr other ↦ rw (other) (get_or-mark_other flags n m (λ k. ground arith))
]

-- Each number that is not marked and that a line has, has one line that is picked.
pub count-pick :
    (flags : List Bool) (ls : List Bytes) (m : ℕ)
    → sum (outside (length flags)) ls ≡ 0
    → sum (numbered m) (pick flags ls)
      ≡ (if get_or flags m false then 0 else if sum (numbered m) ls == 0 then 0 else 1)
unfolding pick
count-pick flags [] m h = ground arith
count-pick flags (l ∷ ls) m h = elim (ℤ-cases (line_num l)) [
  | inl (n, e) ↦ elim (Bool-cases (get_or flags n false)) [
    | inl seen ↦
        rw (pick_seen flags l ls n e seen, numbered_lem m l n e)
          (let rest = count-pick flags ls m ((inside flags l ls n e h).1) in
            elim (Bool-cases (n == m)) [
              | inl same ↦
                  let there = rw ((==_iff n m).0 same) at seen in ground (arith, rest, there, same)
              | inr other ↦ ground (arith, rest, other)
            ])
    | inr fresh ↦
        let rest =
          count-pick (mark flags n) ls m (rw (length-mark flags n) ((inside flags l ls n e h).1)) in
        let marked = get_or-mark flags n m ((inside flags l ls n e h).0) in
        rw (pick_fresh flags l ls n e fresh) (
          let here = numbered_lem m l n e in
          elim (Bool-cases (n == m)) [
            | inl same ↦
                let there = rw ((==_iff n m).0 same) at fresh in
                ground (arith, rest, there, same, marked, here)
            | inr other ↦ ground (arith, rest, other, marked, here)
          ])
  ]
  | inr (n, e) ↦
      let here : outside (length flags) l ≡ 1 = rw (e, outside) refl in absurd (omega (arith, here))
]

pub unmarked : (memory : List Bool) (m : ℕ) → sum set_bit memory ≡ 0 → get_or memory m false ≡ false
unmarked [] m h = refl
unmarked (b ∷ bs) zero h = ground arith
unmarked (b ∷ bs) (suc m) h = unmarked bs m (omega arith)
