-- ===== src/Reader/Restored/Lines.antt =====
-- A block's text is split into the lines that it was joined of.
use distributed_task_dispath.Prelude.{
  ℕ, ◌≤◌, ◌<◌, true, false, List, [], ◌∷◌, ◌++◌, ◌≡◌, ◌≢◌, refl, ap, sym, ◌∙◌, arith, All, all,
  length, ltb, append_assoc, All-append, All-map, subst, ◌==◌,
}
use distributed_task_dispath.Bytes.{Bytes, codes}
use distributed_task_dispath.Bytes.Equality.{bytes_eq_ne}
use distributed_task_dispath.Bytes.Search.{Lacks}
use distributed_task_dispath.Recovery.Blocks.{
  split_from, split_lines, max_line_size, max_block_size, have_room,
}
use distributed_task_dispath.Recovery.Blocks.Greatest.{usable}
use distributed_task_dispath.Reader.Stored.{text}
use distributed_task_dispath.Tendis.KeyValue.{IsArgument}

-- A line as `fgets` gives it and as it can be stored: a line feed at the end and nowhere else, no
-- space, no % and no zero byte, and room for it in a buffer.
pub record IsLine (l : Bytes) : Type 0 where
  pub body : Bytes
  pub ends : l ≡ body ++ 10 ∷ []
  pub one_end : Lacks 10 body
  pub no_space : Lacks 32 body
  pub no_percent : Lacks b'%' body
  pub no_zero : Lacks 0 body
  pub fits : length l < max_line_size

split_from_body :
    (before body rest : Bytes)
    → Lacks 10 body
    → split_from before (body ++ 10 ∷ rest) ≡ (before ++ (body ++ 10 ∷ [])) ∷ split_from [] rest
unfolding split_from
split_from_body before [] rest h = refl
split_from_body before (c ∷ body) rest (h, hs) =
    let other : (c == 10) ≡ false = ground (arith, h) in
    rw other (
      split_from_body (before ++ c ∷ []) body rest hs
      ∙ ap (λ l. l ∷ split_from [] rest) (append_assoc before (c ∷ []) (body ++ 10 ∷ [])))

pub split_lines-text : (ls : List Bytes) → All IsLine ls → split_lines (text ls) ≡ ls
unfolding split_lines split_from
split_lines-text [] h = refl
split_lines-text (l ∷ ls) (h, hs) =
    ap (λ s. split_from [] (s ++ text ls)) h.ends
    ∙ ap (split_from []) (append_assoc h.body (10 ∷ []) (text ls))
    ∙ split_from_body [] h.body (text ls) h.one_end
    ∙ ap (λ m. m ∷ split_from [] (text ls)) (sym h.ends)
    ∙ ap (◌∷◌ l) (split_lines-text ls hs)

fits_all : (ls : List Bytes) → All IsLine ls → all (λ l. ltb (length l) max_line_size) ls ≡ true
fits_all [] h = refl
fits_all (l ∷ ls) (h, hs) = ground (arith, h.fits, fits_all ls hs)

error_lines : split_lines (codes "error") ≡ []
unfolding split_lines split_from
error_lines = refl

no_lines : split_lines [] ≡ []
unfolding split_lines split_from
no_lines = refl

cons_ne : {l : Bytes} {ls : List Bytes} → (l ∷ ls) ≢ []
cons_ne e = cc

-- A block of some such lines, but not too many, can be read.
pub text-usable :
    (l : Bytes) (ls : List Bytes)
    → All IsLine (l ∷ ls)
    → length (l ∷ ls) ≤ max_block_size
    → usable (text (l ∷ ls)) ≡ true
text-usable l ls h short =
    let same = split_lines-text (l ∷ ls) h in
    let some_text =
      bytes_eq_ne (text (l ∷ ls)) [] (λ e. cons_ne (sym same ∙ ap split_lines e ∙ no_lines)) in
    let no_error =
      bytes_eq_ne (text (l ∷ ls)) (codes "error")
        (λ e. cons_ne (sym same ∙ ap split_lines e ∙ error_lines)) in
    let sized : have_room (l ∷ ls) ≡ true = ground (arith, short, fits_all (l ∷ ls) h) in
    rw (some_text, no_error, same, sized) refl

-- A byte that no line holds.
Lacks-text :
    (c : ℕ) (ls : List Bytes)
    → c ≢ 10
    → All (λ l. (body : Bytes) × (l ≡ body ++ 10 ∷ []) × Lacks c body) ls
    → Lacks c (text ls)
Lacks-text c [] h all_lack = tt
Lacks-text c (l ∷ ls) h ((body, e, lacks), others) =
    All-append (λ x. x ≢ c) l (text ls)
      (subst (λ s. Lacks c s) (sym e)
        (All-append (λ x. x ≢ c) body (10 ∷ []) lacks (λ same. h (sym same), tt)))
      (Lacks-text c ls h others)

pub text-IsArgument :
    (l : Bytes) (ls : List Bytes) → All IsLine (l ∷ ls) → IsArgument (text (l ∷ ls))
text-IsArgument l ls h = record {
  some_byte = λ e. cons_ne (sym (split_lines-text (l ∷ ls) h) ∙ ap split_lines e ∙ no_lines);
  no_space =
      Lacks-text 32 (l ∷ ls) (omega arith)
        (All-map _ _ (l ∷ ls) (λ m k. (k.body, k.ends, k.no_space)) h);
  no_percent =
      Lacks-text b'%' (l ∷ ls) (omega arith)
        (All-map _ _ (l ∷ ls) (λ m k. (k.body, k.ends, k.no_percent)) h);
  no_zero =
      Lacks-text 0 (l ∷ ls) (omega arith)
        (All-map _ _ (l ∷ ls) (λ m k. (k.body, k.ends, k.no_zero)) h);
}
