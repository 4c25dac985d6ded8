-- ===== src/Bytes.antt =====
-- Text as the program handles it: bytes in a list, C strings that end at the first zero byte,
-- `strcmp`, and the `find`, `rfind` and `substr` of std::string.
pub mod Decimal
pub mod Equality
pub mod Search
use Prim.Native.Char.{code}
use Prim.Native.String.{String}
use distributed_task_dispath.Prelude.{
  ℕ, zero, suc, ◌+◌, ◌-◌, Bool, true, false, List, [], ◌∷◌, ◌++◌, ltb, leb, ◌==◌, if◌then◌else◌,
  take, drop, length,
}

abbrev pub Bytes : Type 0
Bytes = List ℕ

-- The code points of a literal; they are its bytes, since the program's literals are ASCII.
abbrev pub codes : String → Bytes
codes String.[] = []
codes (String.◌∷◌ c s) = code c ∷ codes s

abbrev pub bytes_eq : Bytes → Bytes → Bool
bytes_eq [] [] = true
bytes_eq [] (y ∷ ys) = false
bytes_eq (x ∷ xs) [] = false
bytes_eq (x ∷ xs) (y ∷ ys) = let rest = bytes_eq xs ys in if x == y then rest else false

-- What a char array holds as a C string: the bytes before the first zero.
unfoldable pub c_str : Bytes → Bytes
c_str [] = []
c_str (c ∷ s) = elim (c == 0) [ true ↦ [] | false ↦ c ∷ c_str s ]

-- `strcmp(a, b) > 0`, on texts that hold no zero byte.
unfoldable pub strcmp_gt : Bytes → Bytes → Bool
strcmp_gt [] b = false
strcmp_gt (x ∷ a) [] = true
strcmp_gt (x ∷ a) (y ∷ b) = let rest = strcmp_gt a b in if x == y then rest else ltb y x

-- One more than the position of the first `c`, and 0 where `find` returns npos.
unfoldable pub find : ℕ → Bytes → ℕ
find c [] = 0
find c (x ∷ s) = elim (x == c) [
  | true ↦ 1
  | false ↦ let p = find c s in if p == 0 then 0 else suc p
]

-- One more than the position of the last `c`, and 0 where `rfind` returns npos.
unfoldable pub rfind : ℕ → Bytes → ℕ
rfind c [] = 0
rfind c (x ∷ s) = let p = rfind c s in if p == 0 then (if x == c then 1 else 0) else suc p

-- `s.substr(beg + 1, end - beg - 1)` for int positions of `find` and `rfind`, each given as one
-- more than itself: a negative count is a huge size_t, which takes all that is left.
unfoldable pub substr_between : Bytes → ℕ → ℕ → Bytes
substr_between s beg end = if leb end beg then drop beg s else take (end - beg - 1) (drop beg s)
