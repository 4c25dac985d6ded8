-- ===== src/Recovery/Queue.antt =====
-- The priority queue of _file_recovery/re_file.cpp: std::priority_queue over pairs of an index and a
-- line number, least number on top. Which of several least entries is on top is left open, so the
-- queue is an interface.
use distributed_task_dispath.Prelude.{
  SameItems, ℕ, Bool, true, false, not, List, [], ◌∷◌, Option, none, some, ◌≡◌, refl, arith, ltb,
  All,
}
use distributed_task_dispath.Prelude.Int.{ℤ, pos, negsuc}

abbrev pub ltz : ℤ → ℤ → Bool
ltz (pos a) (pos b) = ltb a b
ltz (pos a) (negsuc b) = false
ltz (negsuc a) (pos b) = true
ltz (negsuc a) (negsuc b) = ltb b a

abbrev pub lez : ℤ → ℤ → Bool
lez a b = not (ltz b a)

pub lez_refl : (a : ℤ) → lez a a ≡ true
lez_refl (pos a) = ground arith
lez_refl (negsuc a) = ground arith

pub lez_trans : (a b c : ℤ) → lez a b ≡ true → lez b c ≡ true → lez a c ≡ true
lez_trans (pos a) (pos b) (pos c) h k = ground arith
lez_trans (pos a) (pos b) (negsuc c) h k = cc
lez_trans (pos a) (negsuc b) c h k = cc
lez_trans (negsuc a) b (pos c) h k = refl
lez_trans (negsuc a) (pos b) (negsuc c) h k = cc
lez_trans (negsuc a) (negsuc b) (negsuc c) h k = ground arith

-- An index and the number of the line that waits there.
abbrev pub Entry : Type 0
Entry = ℕ × ℤ

pub record PriorityQueue : Type 1 where
  pub Queue : Type 0
  pub empty : Queue
  pub push : Entry → Queue → Queue
  -- `top` and `pop`; `none` for an empty queue.
  pub pop : Queue → Option (Entry × Queue)
  pub items : Queue → List Entry
  pub items-empty : items empty ≡ []
  pub items-push : (x : Entry) (q : Queue) → SameItems (items (push x q)) (x ∷ items q)
  pub items-pop :
      (q r : Queue) (x : Entry) → pop q ≡ some (x, r) → SameItems (items q) (x ∷ items r)
  pub pop_least :
      (q r : Queue) (x : Entry) → pop q ≡ some (x, r) → All (λ y. lez x.1 y.1 ≡ true) (items r)
  pub pop_none : (q : Queue) → pop q ≡ none → items q ≡ []
