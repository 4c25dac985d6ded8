-- ===== src/Bytes/Decimal/Size.antt =====
-- How long a printed number is.
use native.Mathlib.Nat.{pow-suc}
use distributed_task_dispath.Prelude.{
  ℕ, zero, suc, ◌+◌, ◌*◌, ◌/◌, ◌%◌, ◌^◌, ◌≤◌, ◌<◌, [], ◌∷◌, ◌≡◌, refl, arith, length,
}
use distributed_task_dispath.Bytes.{Bytes}
use distributed_task_dispath.Bytes.Decimal.{digits, to_string}

digits-zero : (f : ℕ) (out : Bytes) → digits f 0 out ≡ out
unfolding digits
digits-zero zero out = refl
digits-zero (suc f) out = refl

-- A number below ten is one digit.
pub to_string_digit : (d : ℕ) → d < 10 → to_string d ≡ (b'0' + d) ∷ []
unfolding to_string digits
to_string_digit zero h = refl
to_string_digit (suc d) h = ground (arith, digits-zero d ((b'0' + suc d % 10) ∷ []))

length-digits : (k f n : ℕ) (out : Bytes) → n < 10 ^ k → length (digits f n out) ≤ k + length out
unfolding digits
length-digits k zero n out h = omega arith
length-digits zero (suc f) n out h = let e : n ≡ 0 = omega arith in rw (e, digits) (omega arith)
length-digits (suc k) (suc f) n out h =
    let small : n < 10 * 10 ^ k = omega (arith, pow-suc 10 k) in
    ground (arith, length-digits k f (n / 10) ((b'0' + n % 10) ∷ out))

-- A number below 10 ^ k, with k positive, has at most k digits.
pub length-to_string : (k n : ℕ) → n < 10 ^ k → 0 < k → length (to_string n) ≤ k
unfolding to_string
length-to_string k n h p = ground (arith, length-digits k n n [])
