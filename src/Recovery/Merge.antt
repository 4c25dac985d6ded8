-- ===== src/Recovery/Merge.antt =====
-- The merge loop emits every line that waits, in ascending order of the line numbers.
use distributed_task_dispath.Prelude.{
  sum, ℕ, zero, suc, ◌<◌, Bool, true, ◌&&◌, List, [], ◌∷◌, ◌≡◌, ◌≢◌, refl, ap, arith, ◌==◌, ltb,
  if◌then◌else◌, length, get_or, All,
}
use distributed_task_dispath.Prelude.Int.{ℤ, pos, negsuc}
use distributed_task_dispath.Bytes.{Bytes}
use distributed_task_dispath.Recovery.{line_num, Stream, closed, put}
use distributed_task_dispath.Recovery.Queue.{Entry, ltz, lez, lez_refl, lez_trans}

-- 1 for a line with a number below `n`.
abbrev pub below : ℤ → Bytes → ℕ
below n line = if ltz (line_num line) n then 1 else 0

-- The lines ascend: after each line none has a smaller number.
abbrev pub ascending : List Bytes → Bool
ascending [] = true
ascending (l ∷ ls) = sum (below (line_num l)) ls == 0 && ascending ls

abbrev pub eqz : ℤ → ℤ → Bool
eqz a b = lez a b && lez b a

pub eqz-eq : (a b : ℤ) → eqz a b ≡ true → a ≡ b
eqz-eq (pos a) (pos b) h = ground arith
eqz-eq (pos a) (negsuc b) h = cc
eqz-eq (negsuc a) (pos b) h = cc
eqz-eq (negsuc a) (negsuc b) h = ground arith

pub eqz_refl : (a : ℤ) → eqz a a ≡ true
eqz_refl a = rw (lez_refl a) refl

abbrev pub lines : Stream → List Bytes
lines s = s.buf ∷ s.rest

-- An entry of the queue fits the streams: its stream is there, its number is that of the line in
-- the buffer, and the lines of the stream ascend.
abbrev pub fits : List Stream → Entry → Bool
fits ss (i, n) =
    let s = get_or ss i closed in
    ltb i (length ss) && (eqz n (line_num s.buf) && ascending (lines s))

abbrev pub misfit : List Stream → Entry → ℕ
misfit ss y = if fits ss y then 0 else 1

abbrev pub at : ℕ → Entry → ℕ
at i (j, n) = if j == i then 1 else 0

-- What a weight on lines comes to over the stream of an entry.
abbrev pub weight : List Stream → (Bytes → ℕ) → Entry → ℕ
weight ss g (i, n) = sum g (lines (get_or ss i closed))

pub below_mono :
    (m n : ℤ) (ls : List Bytes) → lez m n ≡ true → sum (below n) ls ≡ 0 → sum (below m) ls ≡ 0
below_mono m n [] h k = refl
below_mono m n (l ∷ ls) h k =
    let rest = below_mono m n ls h (omega arith) in ground (arith, lez_trans m n (line_num l) h)

pub sum_agree :
    {A : Type 0} (f g h : A → ℕ) (xs : List A)
    → sum f xs ≡ 0
    → ((x : A) → f x ≡ 0 → g x ≡ h x)
    → sum g xs ≡ sum h xs
sum_agree f g h [] e a = refl
sum_agree f g h (x ∷ xs) e a = omega (arith, a x (omega arith), sum_agree f g h xs (omega arith) a)

-- Nothing waits below a number that is below every entry.
pub nothing_below :
    (ss : List Stream) (n : ℤ) (ys : List Entry)
    → sum (misfit ss) ys ≡ 0
    → All (λ y. lez n y.1 ≡ true) ys
    → sum (weight ss (below n)) ys ≡ 0
nothing_below ss n [] h k = refl
nothing_below ss n ((i, m) ∷ ys) h k =
    omega (arith, head_above, nothing_below ss n ys (omega arith) k.1)
  where
    s : Stream
    s = get_or ss i closed

    good : fits ss (i, m) ≡ true
    good = ground arith

    exact : m ≡ line_num s.buf
    exact = eqz-eq m (line_num s.buf) (ground arith)

    above : lez n (line_num s.buf) ≡ true
    above = rw exact at (k.0)

    head_above : sum (below n) (lines s) ≡ 0
    head_above = ground (arith, above, below_mono n (line_num s.buf) s.rest above)

pub get_or-put_self :
    (ss : List Stream) (i : ℕ) (s : Stream) → i < length ss → get_or (put ss i s) i closed ≡ s
get_or-put_self [] i s h = absurd (omega arith)
get_or-put_self (t ∷ ss) zero s h = refl
get_or-put_self (t ∷ ss) (suc i) s h = get_or-put_self ss i s (omega arith)

pub get_or-put_other :
    (ss : List Stream) (i j : ℕ) (s : Stream)
    → j ≢ i
    → get_or (put ss i s) j closed ≡ get_or ss j closed
get_or-put_other [] i j s h = refl
get_or-put_other (t ∷ ss) zero zero s h = absurd (h refl)
get_or-put_other (t ∷ ss) zero (suc j) s h = refl
get_or-put_other (t ∷ ss) (suc i) zero s h = refl
get_or-put_other (t ∷ ss) (suc i) (suc j) s h = get_or-put_other ss i j s (λ e. h (ap suc e))

pub length-put : (ss : List Stream) (i : ℕ) (s : Stream) → length (put ss i s) ≡ length ss
length-put [] i s = refl
length-put (t ∷ ss) zero s = refl
length-put (t ∷ ss) (suc i) s = ap suc (length-put ss i s)
