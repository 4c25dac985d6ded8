-- ===== src/Bytes/Decimal.antt =====
-- `std::to_string`, `atoi` and `stoi`.
pub mod Size
use mathlib.Core.List.{cons-ne-nil}
use distributed_task_dispath.Prelude.{
  ℕ, zero, suc, ◌+◌, ◌-◌, ◌*◌, ◌/◌, ◌%◌, ◌^◌, ◌≤◌, Bool, true, false, ◌&&◌, ◌||◌, [], ◌∷◌, Option,
  none, some, ◌≡◌, ◌≢◌, refl, arith, leb, ◌==◌, if◌then◌else◌, All,
}
use distributed_task_dispath.Prelude.Int.{ℤ, pos, negsuc, neg}
use distributed_task_dispath.Bytes.{Bytes, codes}

-- Prints the digits of `n` before `out`; the first argument is fuel, and `n` is enough.
digits : ℕ → ℕ → Bytes → Bytes
digits zero n out = out
digits (suc f) n out = elim (n == 0) [
  | true ↦ out
  | false ↦ digits f (n / 10) ((b'0' + n % 10) ∷ out)
]

unfoldable pub to_string : ℕ → Bytes
unfolding digits
to_string n = if n == 0 then b'0' ∷ [] else digits n n []

unfoldable pub to_string_int : ℤ → Bytes
unfolding to_string
to_string_int (pos n) = to_string n
to_string_int (negsuc n) = b'-' ∷ to_string (suc n)

abbrev pub is_digit : ℕ → Bool
is_digit c = leb b'0' c && leb c b'9'

-- `isspace` in the C locale.
abbrev is_space : ℕ → Bool
is_space c = c == 32 || leb 9 c && leb c 13

-- The leading digits, read behind the number `n`.
scan : Bytes → ℕ → ℕ
scan [] n = n
scan (c ∷ s) n = elim (is_digit c) [ true ↦ scan s (n * 10 + (c - b'0')) | false ↦ n ]

signed : Bytes → Option ℤ
unfolding scan
signed [] = none
signed (c ∷ s) = if is_digit c then some (pos (scan (c ∷ s) 0)) else none

after_minus : Option ℤ → Option ℤ
after_minus none = none
after_minus (some (pos n)) = some (neg n)
after_minus (some (negsuc n)) = some (negsuc n)

after_spaces : Bytes → Option ℤ
unfolding signed after_minus
after_spaces [] = none
after_spaces (c ∷ s) = elim (is_space c) [
  | true ↦ after_spaces s
  | false ↦
      if c == b'-' then after_minus (signed s) else if c == b'+' then signed s else signed (c ∷ s)
]

-- The value of `atoi`; where the digits spell no int, C leaves the call undefined.
unfoldable pub atoi : Bytes → ℤ
unfolding after_spaces
atoi s = elim (after_spaces s) [ none ↦ pos 0 | some z ↦ z ]

abbrev pub int_max : ℕ
int_max = 2 ^ 31 - 1

abbrev in_int : ℤ → Bool
in_int (pos n) = leb n int_max
in_int (negsuc n) = leb n int_max

-- `none` is an exception: there is no number, or it is no int.
unfoldable pub stoi : Bytes → Option ℤ
unfolding after_spaces
stoi s = elim (after_spaces s) [ none ↦ none | some z ↦ if in_int z then some z else none ]

abbrev pub IsDigit : ℕ → Type 0
IsDigit c = (b'0' ≤ c) × (c ≤ b'9')

digits-All : (f n : ℕ) (out : Bytes) → All IsDigit out → All IsDigit (digits f n out)
unfolding digits
digits-All zero n out h = h
digits-All (suc f) n out h = ground (arith, digits-All f (n / 10) ((b'0' + n % 10) ∷ out))

-- A printed number consists of digits.
pub to_string-All : (n : ℕ) → All IsDigit (to_string n)
unfolding to_string
to_string-All n = ground (arith, digits-All n n [])

scan_last : (n : ℕ) (out : Bytes) → scan ((b'0' + n % 10) ∷ out) (n / 10) ≡ scan out n
unfolding scan
scan_last n out = ground arith

scan-digits : (f n : ℕ) (out : Bytes) → n ≤ f → scan (digits f n out) 0 ≡ scan out n
unfolding digits
scan-digits zero n out h = let e : n ≡ 0 = omega arith in rw e
scan-digits (suc f) n out h =
    ground (arith, scan-digits f (n / 10) ((b'0' + n % 10) ∷ out), scan_last n out)

digits-ne-nil : (f n : ℕ) (out : Bytes) → out ≢ [] → digits f n out ≢ []
unfolding digits
digits-ne-nil zero n out h = h
digits-ne-nil (suc f) n out h =
    ground
      (arith, digits-ne-nil f (n / 10) ((b'0' + n % 10) ∷ out), cons-ne-nil (b'0' + n % 10) out)

scan-nil : (n : ℕ) → scan [] n ≡ n
unfolding scan
scan-nil n = refl

scan_zero : scan (b'0' ∷ []) 0 ≡ 0
unfolding scan
scan_zero = refl

scan-to_string : (n : ℕ) → scan (to_string n) 0 ≡ n
unfolding to_string
scan-to_string n = ground (arith, scan-digits n n [], scan-nil n, scan_zero)

pub to_string-ne-nil : (n : ℕ) → to_string n ≢ []
unfolding to_string digits
to_string-ne-nil zero = ground arith
to_string-ne-nil (suc n) = ground (
  arith,
  digits-ne-nil n (suc n / 10) ((b'0' + suc n % 10) ∷ []),
  cons-ne-nil {A = ℕ} (b'0' + suc n % 10) [],
)

after_spaces_digits : (s : Bytes) → s ≢ [] → All IsDigit s → after_spaces s ≡ some (pos (scan s 0))
unfolding after_spaces
after_spaces_digits [] h d = absurd (h refl)
after_spaces_digits (c ∷ s) h d = ground arith

-- A printed number is read back by `atoi`.
pub atoi-to_string : (n : ℕ) → atoi (to_string n) ≡ pos n
unfolding atoi
atoi-to_string n = rw (
  after_spaces_digits (to_string n) (to_string-ne-nil n) (to_string-All n),
  scan-to_string n,
  atoi,
)

pub stoi-to_string : (n : ℕ) → n ≤ int_max → stoi (to_string n) ≡ some (pos n)
unfolding stoi
stoi-to_string n h =
    rw
      (
        after_spaces_digits (to_string n) (to_string-ne-nil n) (to_string-All n),
        scan-to_string n,
        stoi,
      )
      (ground arith)

minus_one : (to_string_int (negsuc 0) ≡ codes "-1") × (atoi (codes " -12x") ≡ negsuc 11)
unfolding to_string_int atoi
minus_one = (refl, refl)
