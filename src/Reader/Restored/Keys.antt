-- ===== src/Reader/Restored/Keys.antt =====
-- The keys of the blocks: the reader's and the recovery's are the same, and blocks with different
-- numbers have different keys.
use distributed_task_dispath.Prelude.{
  ℕ, ◌<◌, [], ◌∷◌, ◌++◌, ◌≡◌, ◌≢◌, ap, sym, ◌∙◌, inl, arith, All-append, All-map, append_assoc, ◌⊎◌,
  refl,
}
use distributed_task_dispath.Prelude.Int.{pos}
use distributed_task_dispath.Bytes.{Bytes, codes}
use distributed_task_dispath.Bytes.Equality.{append_cancel}
use distributed_task_dispath.Bytes.Search.{Lacks}
use distributed_task_dispath.Bytes.Decimal.{
  to_string, to_string_int, atoi, atoi-to_string, to_string-All,
}
use distributed_task_dispath.Recovery.Blocks.{block_query}
use distributed_task_dispath.Tendis.KeyValue.{IsArgument}
use distributed_task_dispath.Reader.{set_block}

-- "task<t>_<n>_<b>".
pub block_key : ℕ → ℕ → ℕ → Bytes
block_key task node block =
    codes "task" ++ to_string task ++ (codes "_" ++ to_string node ++ codes "_") ++ to_string block

pub set_block-key :
    (task node block : ℕ) (str : Bytes)
    → set_block (pos task) (pos node) block str
      ≡ codes "set " ++ block_key task node block ++ codes " " ++ str
unfolding set_block block_key to_string_int
set_block-key task node block str = refl

pub block_query-key :
    (task node block : ℕ)
    → block_query (pos task) (pos node) block ≡ codes "get " ++ block_key task node block
unfolding block_query block_key to_string_int
block_query-key task node block =
    ap (λ s. codes "get " ++ (s ++ to_string block))
      (append_assoc (codes "task" ++ to_string task ++ codes "_") (to_string node) (codes "_")
        ∙ append_assoc (codes "task" ++ to_string task) (codes "_") (to_string node ++ codes "_"))

pos_inj : {a b : ℕ} → pos a ≡ pos b → a ≡ b
pos_inj e = cc

pub block_key_ne : (task node a b : ℕ) → a ≢ b → block_key task node a ≢ block_key task node b
unfolding block_key
block_key_ne task node a b h e =
    let tail =
      append_cancel (codes "task" ++ to_string task ++ (codes "_" ++ to_string node ++ codes "_"))
        (to_string a) (to_string b) e in
    h (pos_inj (sym (atoi-to_string a) ∙ ap atoi tail ∙ atoi-to_string b))

digits-Lacks : (c n : ℕ) → (c < b'0') ⊎ (b'9' < c) → Lacks c (to_string n)
digits-Lacks c n h = All-map _ _ (to_string n) (λ x d e. omega arith) (to_string-All n)

key-Lacks :
    (c task node block : ℕ)
    → (c < b'0') ⊎ (b'9' < c)
    → Lacks c (codes "task")
    → c ≢ b'_'
    → Lacks c (block_key task node block)
unfolding block_key
key-Lacks c task node block h word line =
    let separator : Lacks c (codes "_") = (λ e. line (sym e), tt) in
    let name =
      All-append (λ x. x ≢ c) (codes "task") (to_string task) word (digits-Lacks c task h) in
    let middle =
      All-append (λ x. x ≢ c) (codes "_" ++ to_string node) (codes "_")
        (All-append (λ x. x ≢ c) (codes "_") (to_string node) separator (digits-Lacks c node h))
        separator in
    All-append (λ x. x ≢ c)
      (codes "task" ++ to_string task ++ (codes "_" ++ to_string node ++ codes "_"))
      (to_string block)
      (All-append (λ x. x ≢ c) (codes "task" ++ to_string task)
        (codes "_" ++ to_string node ++ codes "_") name middle)
      (digits-Lacks c block h)

pub block_key-IsArgument : (task node block : ℕ) → IsArgument (block_key task node block)
unfolding block_key
block_key-IsArgument task node block = record {
  some_byte = λ e. cons_ne e;
  no_space = key-Lacks 32 task node block (inl (omega arith)) (ground arith) (omega arith);
  no_percent = key-Lacks b'%' task node block (inl (omega arith)) (ground arith) (omega arith);
  no_zero = key-Lacks 0 task node block (inl (omega arith)) (ground arith) (omega arith);
}
  where
    cons_ne : {c : ℕ} {s : Bytes} → (c ∷ s) ≢ []
    cons_ne e = cc
