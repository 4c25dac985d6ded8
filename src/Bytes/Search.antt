-- ===== src/Bytes/Search.antt =====
-- Where `find`, `rfind` and `substr_between` look: the laws that the command parser needs.
use distributed_task_dispath.Prelude.{
  ℕ, suc, [], ◌∷◌, ◌++◌, ◌≡◌, ◌≢◌, refl, ap, arith, All, length, take, drop,
}
use distributed_task_dispath.Bytes.{Bytes, c_str, find, rfind}

-- No byte of the text is `c`.
abbrev pub Lacks : ℕ → Bytes → Type 0
Lacks c = All (λ x. x ≢ c)

pub find-Lacks : (c : ℕ) (s t : Bytes) → Lacks c s → find c (s ++ c ∷ t) ≡ suc (length s)
unfolding find
find-Lacks c [] t h = ground arith
find-Lacks c (x ∷ s) t h = ground (arith, find-Lacks c s t h.1)

pub rfind-Lacks : (c : ℕ) (s : Bytes) → Lacks c s → rfind c s ≡ 0
unfolding rfind
rfind-Lacks c [] h = refl
rfind-Lacks c (x ∷ s) h = ground (arith, rfind-Lacks c s h.1)

pub rfind_last : (c : ℕ) (s t : Bytes) → Lacks c t → rfind c (s ++ c ∷ t) ≡ suc (length s)
unfolding rfind
rfind_last c [] t h = ground (arith, rfind-Lacks c t h)
rfind_last c (x ∷ s) t h = ground (arith, rfind_last c s t h)

pub take-append : (s t : Bytes) → take (length s) (s ++ t) ≡ s
take-append [] t = refl
take-append (x ∷ s) t = ap (◌∷◌ x) (take-append s t)

pub drop-append : (s t : Bytes) → drop (length s) (s ++ t) ≡ t
drop-append [] t = refl
drop-append (x ∷ s) t = drop-append s t

-- A text without a zero byte is read back whole from an array that is padded with zeros.
pub c_str_padded : (s t : Bytes) → Lacks 0 s → c_str (s ++ 0 ∷ t) ≡ s
unfolding c_str
c_str_padded [] t h = refl
c_str_padded (x ∷ s) t h = ground (arith, c_str_padded s t h.1)
