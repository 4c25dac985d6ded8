-- ===== src/Prelude/Lists.antt =====
-- Lists measured and indexed by native numbers, under the library's names, and the predicates
-- by recursion that the components share.
use Prim.Native.Nat.{ℕ, zero, suc, ◌+◌, ◌-◌, ◌≤◌, ◌<◌, min}
use mathlib.Core.Path.{◌≡◌, refl, ap, subst, ◌∙◌}
use mathlib.Core.Logic.{◌≢◌, ◌⊎◌, inl, inr}
use mathlib.Core.Bool.{Bool, true, false}
use mathlib.Core.Option.{Option, none, some}
use mathlib.Core.List.{List, [], ◌∷◌, ◌++◌}
use native.Mathlib.Omega.{arith}
use distributed_task_dispath.Prelude.Tests.{if◌then◌else◌, Bool-cases}

module _ {ℓ} {A : Type ℓ} where
  abbrev pub length : List A → ℕ
  length [] = 0
  length (x ∷ xs) = suc (length xs)

  abbrev pub get_or : List A → ℕ → A → A
  get_or [] i d = d
  get_or (x ∷ xs) zero d = x
  get_or (x ∷ xs) (suc i) d = get_or xs i d

  abbrev pub get_elem? : List A → ℕ → Option A
  get_elem? [] i = none
  get_elem? (x ∷ xs) zero = some x
  get_elem? (x ∷ xs) (suc i) = get_elem? xs i

  -- A write out of bounds changes nothing.
  abbrev pub set : List A → ℕ → A → List A
  set [] i v = []
  set (x ∷ xs) zero v = v ∷ xs
  set (x ∷ xs) (suc i) v = x ∷ set xs i v

  abbrev pub take : ℕ → List A → List A
  take zero xs = []
  take (suc n) [] = []
  take (suc n) (x ∷ xs) = x ∷ take n xs

  abbrev pub drop : ℕ → List A → List A
  drop zero xs = xs
  drop (suc n) [] = []
  drop (suc n) (x ∷ xs) = drop n xs

  abbrev pub replicate : ℕ → A → List A
  replicate zero a = []
  replicate (suc n) a = a ∷ replicate n a

  pub length-append : (xs ys : List A) → length (xs ++ ys) ≡ length xs + length ys
  length-append [] ys = omega arith
  length-append (x ∷ xs) ys = omega (arith, length-append xs ys)

  pub length-take : (n : ℕ) (xs : List A) → length (take n xs) ≡ min n (length xs)
  length-take zero xs = omega arith
  length-take (suc n) [] = omega arith
  length-take (suc n) (x ∷ xs) = omega (arith, length-take n xs)

  pub length-drop : (n : ℕ) (xs : List A) → length (drop n xs) ≡ length xs - n
  length-drop zero xs = omega arith
  length-drop (suc n) [] = omega arith
  length-drop (suc n) (x ∷ xs) = omega (arith, length-drop n xs)

  pub length-replicate : (n : ℕ) (a : A) → length (replicate n a) ≡ n
  length-replicate zero a = refl
  length-replicate (suc n) a = ap suc (length-replicate n a)

  pub take_all : (n : ℕ) (xs : List A) → length xs ≤ n → take n xs ≡ xs
  take_all zero [] h = refl
  take_all zero (x ∷ xs) h = absurd (omega arith)
  take_all (suc n) [] h = refl
  take_all (suc n) (x ∷ xs) h = ap (◌∷◌ x) (take_all n xs (omega arith))

  -- The items that pass a test.
  abbrev pub keep : (A → Bool) → List A → List A
  keep p [] = []
  keep p (x ∷ xs) = let rest = keep p xs in if p x then x ∷ rest else rest

  abbrev pub all : (A → Bool) → List A → Bool
  all p [] = true
  all p (x ∷ xs) = if p x then all p xs else false

  -- A predicate of every item.
  abbrev pub All {κ} : (A → Type κ) → List A → Type κ
  All P [] = Unit
  All P (x ∷ xs) = P x × All P xs

  abbrev pub Distinct : List A → Type ℓ
  Distinct [] = Unit
  Distinct (x ∷ xs) = All (λ y. x ≢ y) xs × Distinct xs

abbrev pub In : {A : Type 0} → A → List A → Type 0
In x [] = ⊥
In x (y ∷ ys) = (y ≡ x) ⊎ In x ys

module _ {ℓ} {A : Type ℓ} where
  pub All-map {κ μ} :
      (P : A → Type κ) (Q : A → Type μ) (xs : List A) → ((x : A) → P x → Q x) → All P xs → All Q xs
  All-map P Q [] f h = tt
  All-map P Q (x ∷ xs) f h = (f x h.0, All-map P Q xs f h.1)

  pub All-append {κ} : (P : A → Type κ) (xs ys : List A) → All P xs → All P ys → All P (xs ++ ys)
  All-append P [] ys hx hy = hy
  All-append P (x ∷ xs) ys hx hy = (hx.0, All-append P xs ys hx.1 hy)

pub All-In {κ} : {A : Type 0} (P : A → Type κ) {x : A} (xs : List A) → In x xs → All P xs → P x
All-In P [] i h = absurd i
All-In P (y ∷ ys) (inl e) h = subst P e h.0
All-In P (y ∷ ys) (inr i) h = All-In P ys i h.1

pub All-intro {κ} :
    {A : Type 0} (P : A → Type κ) (xs : List A) → ((x : A) → In x xs → P x) → All P xs
All-intro P [] h = tt
All-intro P (x ∷ xs) h = (h x (inl refl), All-intro P xs (λ y i. h y (inr i)))

pub keep-In :
    {A : Type 0} (p : A → Bool) (x : A) (xs : List A) → p x ≡ true → In x xs → In x (keep p xs)
keep-In p x [] e i = absurd i
keep-In p x (y ∷ ys) e (inl here) = rw (ap p here ∙ e) (inl here)
keep-In p x (y ∷ ys) e (inr later) =
    let rest = keep-In p x ys e later in
    elim (Bool-cases (p y)) [ inl kept ↦ rw kept (inr rest) | inr left ↦ rw left rest ]

pub All-keep {κ} :
    {A : Type 0} (P : A → Type κ) (p : A → Bool) (xs : List A) → All P xs → All P (keep p xs)
All-keep P p [] h = tt
All-keep P p (x ∷ xs) (h, hs) = elim (Bool-cases (p x)) [
  | inl kept ↦ rw kept (h, All-keep P p xs hs)
  | inr left ↦ rw left (All-keep P p xs hs)
]

-- To split on a computed list and keep the equation.
pub List-cases {ℓ} :
    {A : Type ℓ} (xs : List A) → (xs ≡ []) ⊎ ((x : A) × (rest : List A) × (xs ≡ x ∷ rest))
List-cases [] = inl refl
List-cases (x ∷ xs) = inr (x, xs, refl)

-- The item behind `front`, and a list with another in its place.
module _ {ℓ} {A : Type ℓ} where
  pub get_elem?-append :
      (front back : List A) (x : A) → get_elem? (front ++ x ∷ back) (length front) ≡ some x
  get_elem?-append [] back x = refl
  get_elem?-append (y ∷ front) back x = get_elem?-append front back x

  pub set-append :
      (front back : List A) (x y : A) → set (front ++ x ∷ back) (length front) y ≡ front ++ y ∷ back
  set-append [] back x y = refl
  set-append (z ∷ front) back x y = ap (◌∷◌ z) (set-append front back x y)

  pub split_at :
      (xs : List A) (i : ℕ) (x : A)
      → get_elem? xs i ≡ some x
      → (front back : List A) × (xs ≡ front ++ x ∷ back) × (length front ≡ i)
  split_at [] i x e = absurd (cc)
  split_at (y ∷ ys) zero x e = ([], ys, cc, refl)
  split_at (y ∷ ys) (suc i) x e =
      let (front, back, whole, size) = split_at ys i x e in
      (y ∷ front, back, ap (◌∷◌ y) whole, ap suc size)

pub In-length : {A : Type 0} (x : A) (xs : List A) → In x xs → 0 < length xs
In-length x [] i = absurd i
In-length x (y ∷ ys) i = omega arith

pub In-keep : {A : Type 0} (p : A → Bool) (x : A) (xs : List A) → In x (keep p xs) → In x xs
In-keep p x [] i = i
In-keep p x (y ∷ ys) i = elim (Bool-cases (p y)) [
  | inl kept ↦ by_place (In-keep p x ys) (rw kept at i)
  | inr left ↦ inr (In-keep p x ys (rw left at i))
]
  where
    by_place : (In x (keep p ys) → In x ys) → In x (y ∷ keep p ys) → In x (y ∷ ys)
    by_place rest (inl here) = inl here
    by_place rest (inr later) = inr (rest later)

-- A stronger test that one more item fails keeps fewer items.
pub length-keep_le :
    {A : Type 0} (p q : A → Bool) (xs : List A)
    → All (λ x. q x ≡ true → p x ≡ true) xs
    → length (keep q xs) ≤ length (keep p xs)
length-keep_le p q [] h = omega arith
length-keep_le p q (x ∷ xs) (h, hs) = ground (arith, h, length-keep_le p q xs hs)

pub length-keep_lt :
    {A : Type 0} (p q : A → Bool) (x : A) (xs : List A)
    → All (λ y. q y ≡ true → p y ≡ true) xs
    → In x xs
    → p x ≡ true
    → q x ≡ false
    → length (keep q xs) < length (keep p xs)
length-keep_lt p q x [] h i px qx = absurd i
length-keep_lt p q x (y ∷ ys) (h, hs) (inl here) px qx =
    let py : p y ≡ true = ap p here ∙ px in
    let qy : q y ≡ false = ap q here ∙ qx in rw (py, qy) (omega (arith, length-keep_le p q ys hs))
length-keep_lt p q x (y ∷ ys) (h, hs) (inr later) px qx =
    ground (arith, h, length-keep_lt p q x ys hs later px qx)
