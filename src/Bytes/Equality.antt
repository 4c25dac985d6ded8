-- ===== src/Bytes/Equality.antt =====
-- Equality of texts is decided by `bytes_eq`, and what is known of joined texts.
use distributed_task_dispath.Prelude.{true, false, [], ◌∷◌, ◌++◌, ◌≡◌, ◌≢◌, refl, ◌↔◌, arith}
use distributed_task_dispath.Bytes.{Bytes, bytes_eq}

pub bytes_eq→eq : (a b : Bytes) → bytes_eq a b ≡ true → a ≡ b
bytes_eq→eq [] [] h = refl
bytes_eq→eq [] (y ∷ b) h = cc
bytes_eq→eq (x ∷ a) [] h = cc
bytes_eq→eq (x ∷ a) (y ∷ b) h = ground (arith, bytes_eq→eq a b)

pub bytes_eq_refl : (a : Bytes) → bytes_eq a a ≡ true
bytes_eq_refl [] = refl
bytes_eq_refl (x ∷ a) = ground (arith, bytes_eq_refl a)

pub bytes_eq_iff : (a b : Bytes) → (bytes_eq a b ≡ true) ↔ (a ≡ b)
bytes_eq_iff a b = (bytes_eq→eq a b, λ e. rw e (bytes_eq_refl b))

pub bytes_eq_ne : (a b : Bytes) → a ≢ b → bytes_eq a b ≡ false
bytes_eq_ne a b h = ground (arith, bytes_eq_iff a b)

-- A common beginning can be taken off.
pub append_cancel : (p a b : Bytes) → p ++ a ≡ p ++ b → a ≡ b
append_cancel [] a b e = e
append_cancel (x ∷ p) a b e = append_cancel p a b (cc)
