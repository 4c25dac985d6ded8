-- ===== src/Recovery/Blocks/Greatest.antt =====
-- The sorted blocks of a node, and the greatest line number in them, as `sort_blocks` finds it.
use distributed_task_dispath.Prelude.{
  sum, sum-append, ℕ, ◌<◌, Bool, true, false, not, ◌&&◌, List, [], ◌∷◌, ◌++◌, ◌≡◌, refl, ap, ◌∙◌,
  arith, ◌⊎◌, inl, inr, Bool-cases, ltb, if◌then◌else◌, ◌≤◌,
}
use distributed_task_dispath.Prelude.Int.{ℤ, pos, negsuc}
use distributed_task_dispath.Bytes.{Bytes, codes, bytes_eq}
use distributed_task_dispath.Recovery.{line_num}
use distributed_task_dispath.Recovery.Queue.{ltz, lez, lez_refl, lez_trans}
use distributed_task_dispath.Recovery.Merge.{ascending, below}
use distributed_task_dispath.Recovery.Opened.{good, all_good, joined}
use distributed_task_dispath.Recovery.Picked.{outside, ℤ-cases}
use distributed_task_dispath.Recovery.Blocks.{
  Sorter, split_lines, have_room, last_of, max_of, is_error,
}

abbrev has_line : List Bytes → Bool
has_line [] = false
has_line (l ∷ ls) = true

-- A block that is read to its end: it is not the text "error", has a line, and fits the buffers.
abbrev pub usable : Bytes → Bool
usable block =
    not (bytes_eq block [])
    && (not (bytes_eq block (codes "error"))
        && (have_room (split_lines block) && has_line (split_lines block)))

-- The lines of the blocks, in the order in which they stand in the database.
abbrev pub all_lines : List Bytes → List Bytes
all_lines [] = []
all_lines (block ∷ blocks) = split_lines block ++ all_lines blocks

abbrev pub last_num : List Bytes → ℤ
last_num [] = pos 0
last_num (l ∷ ls) = line_num (last_of l ls)

List-cases : (ls : List Bytes) → (ls ≡ []) ⊎ ((l : Bytes) × (rest : List Bytes) × (ls ≡ l ∷ rest))
List-cases [] = inl refl
List-cases (l ∷ ls) = inr (l, ls, refl)

-- 1 for a line with a number above `n`.
abbrev pub above : ℤ → Bytes → ℕ
above n line = if ltz n (line_num line) then 1 else 0

last_of-sum : (g : Bytes → ℕ) (l : Bytes) (ls : List Bytes) → g (last_of l ls) ≤ sum g (l ∷ ls)
last_of-sum g l [] = omega arith
last_of-sum g l (m ∷ ls) = omega (arith, last_of-sum g m ls)

last-above : (ls : List Bytes) → ascending ls ≡ true → sum (above (last_num ls)) ls ≡ 0
last-above [] h = refl
last-above (l ∷ []) h = ground (arith, lez_refl (line_num l))
last-above (l ∷ m ∷ ls) h =
    let rest = last-above (m ∷ ls) (ground arith) in
    let low = last_of-sum (below (line_num l)) m ls in ground (arith, rest, low)

above_mono :
    (m n : ℤ) (ls : List Bytes) → lez m n ≡ true → sum (above m) ls ≡ 0 → sum (above n) ls ≡ 0
above_mono m n [] h k = refl
above_mono m n (l ∷ ls) h k =
    let rest = above_mono m n ls h (omega arith) in ground (arith, lez_trans (line_num l) m n, h)

max_of-pos : (n : ℕ) (z : ℤ) → (k : ℕ) × (max_of (pos n) z ≡ pos k)
max_of-pos n (negsuc k) = (n, refl)
max_of-pos n (pos k) = elim (Bool-cases (ltb n k)) [
  | inl more ↦ (k, rw more refl)
  | inr less ↦ (n, rw less refl)
]

outside_self : (l : Bytes) (k : ℕ) → line_num l ≡ pos k → outside k l ≡ 1
outside_self l k e = rw (e, outside) (ground arith)

pub outside_zero : (ls : List Bytes) → sum (outside 0) ls ≡ sum (λ _. 1) ls
outside_zero [] = refl
outside_zero (l ∷ ls) = elim (ℤ-cases (line_num l)) [
  | inl (k, e) ↦
      let here : outside 0 l ≡ 1 = rw (e, outside) (ground arith) in
      omega (arith, here, outside_zero ls)
  | inr (k, e) ↦
      let here : outside 0 l ≡ 1 = rw (e, outside) refl in omega (arith, here, outside_zero ls)
]

pub some_good : (f rest : List Bytes) → good f ≡ true → 0 < sum (λ _. 1) (f ++ rest)
some_good [] rest h = absurd (cc)
some_good (l ∷ ls) rest h = omega arith

-- The greater number of the two is the first, or that of the last line, which is no index below it.
max_of-attained :
    (n : ℕ) (ls : List Bytes)
    → (j : ℕ) × (max_of (pos n) (last_num ls) ≡ pos j) × ((n ≡ j) ⊎ (0 < sum (outside j) ls))
max_of-attained n [] = (n, ground arith, inl refl)
max_of-attained n (l ∷ ls) = elim (ℤ-cases (line_num (last_of l ls))) [
  | inr (k, e) ↦ (n, rw e refl, inl refl)
  | inl (k, e) ↦ elim (Bool-cases (ltb n k)) [
    | inl more ↦ (
      k,
      rw (e, more) refl,
      inr (omega (arith, outside_self _ k e, last_of-sum (outside k) l ls)),
    )
    | inr less ↦ (n, rw (e, less) refl, inl refl)
  ]
]

ltz→lez : (a b : ℤ) → ltz a b ≡ true → lez a b ≡ true
ltz→lez (pos a) (pos b) h = ground arith
ltz→lez (pos a) (negsuc b) h = cc
ltz→lez (negsuc a) (pos b) h = refl
ltz→lez (negsuc a) (negsuc b) h = ground arith

max_of-lez : (m n : ℤ) → (lez m (max_of m n) ≡ true) × (lez n (max_of m n) ≡ true)
max_of-lez m n = elim (Bool-cases (ltz m n)) [
  | inl more ↦ rw more (ltz→lez m n more, lez_refl n)
  | inr less ↦ rw less (lez_refl m, ground arith)
]

module _ (sorter : Sorter) where
  open sorter use {sort, sort-ascending, sort-SameItems}

  -- The greatest last number of the sorted blocks, and `m` at least.
  abbrev pub greatest : ℤ → List Bytes → ℤ
  greatest m [] = m
  greatest m (block ∷ blocks) = greatest (max_of m (last_num (sort (split_lines block)))) blocks

  abbrev pub sorted_files : List Bytes → List (List Bytes)
  sorted_files [] = []
  sorted_files (block ∷ blocks) = sort (split_lines block) ∷ sorted_files blocks

  pub sort-has_line :
      (ls : List Bytes)
      → has_line ls ≡ true
      → (l : Bytes) × (rest : List Bytes) × (sort ls ≡ l ∷ rest)
  sort-has_line [] h = absurd (cc)
  sort-has_line (l ∷ ls) h = elim (List-cases (sort (l ∷ ls))) [
    | inl e ↦ absurd (omega (arith, sort-SameItems (l ∷ ls) (λ _. 1), ap (sum (λ _. 1)) e))
    | inr found ↦ found
  ]

  pub joined-sorted_files :
      (g : Bytes → ℕ) (blocks : List Bytes)
      → sum g (joined (sorted_files blocks)) ≡ sum g (all_lines blocks)
  joined-sorted_files g [] = refl
  joined-sorted_files g (b ∷ bs) = omega (
    arith,
    sum-append g (sort (split_lines b)) (joined (sorted_files bs)),
    sum-append g (split_lines b) (all_lines bs),
    sort-SameItems (split_lines b) g,
    joined-sorted_files g bs,
  )

  pub greatest-pos : (n : ℕ) (blocks : List Bytes) → is_error (greatest (pos n) blocks) ≡ false
  greatest-pos n [] = refl
  greatest-pos n (b ∷ bs) =
      let (k, e) = max_of-pos n (last_num (sort (split_lines b))) in rw e (greatest-pos k bs)

  pub greatest-above :
      (m : ℤ) (blocks : List Bytes)
      → (lez m (greatest m blocks) ≡ true)
        × (sum (above (greatest m blocks)) (joined (sorted_files blocks)) ≡ 0)
  greatest-above m [] = (lez_refl m, refl)
  greatest-above m (b ∷ bs) =
      let n = last_num (sort (split_lines b)) in
      let (from, rest) = greatest-above (max_of m n) bs in
      let (over_m, over_n) = max_of-lez m n in
      let top = greatest (max_of m n) bs in
      let here =
        above_mono n top (sort (split_lines b)) (lez_trans n _ _ over_n from)
          (last-above (sort (split_lines b)) (sort-ascending (split_lines b))) in
      (
        lez_trans m _ _ over_m from,
        omega (
          arith,
          sum-append (above top) (sort (split_lines b)) (joined (sorted_files bs)),
          here,
          rest,
        ),
      )

  pub greatest-attained :
      (n : ℕ) (blocks : List Bytes)
      → all_good (sorted_files blocks) ≡ true
      → (k : ℕ) × (greatest (pos n) blocks ≡ pos k)
        × ((n ≡ k) ⊎ (0 < sum (outside k) (joined (sorted_files blocks))))
  greatest-attained n [] h = (n, refl, inl refl)
  greatest-attained n (b ∷ bs) h =
      let (j, e, from) = max_of-attained n (sort (split_lines b)) in
      let (k, g, rest) = greatest-attained j bs (ground (arith, h)) in
      let split = sum-append (outside k) (sort (split_lines b)) (joined (sorted_files bs)) in
      (
        k,
        rw e g,
        elim rest [
          | inr later ↦ inr (omega (arith, later, split))
          | inl same ↦ elim from [
            | inl start ↦ inl (start ∙ same)
            | inr here ↦
                inr (
                  omega (arith, ap (λ m. sum (outside m) (sort (split_lines b))) same, here, split))
          ]
        ],
      )
