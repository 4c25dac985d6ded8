-- ===== src/Work/SendFile.antt =====
-- `send_file` of _auto_scp/passwd_free_scp.h: the shell command that copies a file to another node.
-- The text of the five passwords is a parameter.
pub mod InRange
use distributed_task_dispath.Prelude.{ℕ, zero, suc, List, [], ◌∷◌, ◌++◌, Option, none, some, ◌>>=◌}
use distributed_task_dispath.Prelude.Int.{ℤ, pos, negsuc}
use distributed_task_dispath.Bytes.{Bytes, codes}

-- The passwords of the five nodes.
pub record Passwords : Type 0 where
  pub elok : Bytes
  pub shinji : Bytes
  pub stern : Bytes
  pub mentor : Bytes
  pub colleague : Bytes

abbrev pub node_ip : List Bytes
node_ip =
    codes "9.134.190.157"
    ∷ codes "9.135.155.140"
    ∷ codes "9.134.74.195"
    ∷ codes "9.134.0.139"
    ∷ codes "9.135.12.132"
    ∷ []

abbrev pub user : List Bytes
user = codes "root" ∷ codes "shinji" ∷ codes "root" ∷ codes "elokwang" ∷ codes "root" ∷ []

abbrev pub passwd : Passwords → List Bytes
passwd p = p.elok ∷ p.shinji ∷ p.stern ∷ p.mentor ∷ p.colleague ∷ []

abbrev pub dest : List Bytes
dest =
    codes "/root/mini/mini_project"
    ∷ codes "/home/shinji/mini/mini_project"
    ∷ codes "/root/mini/mini_project"
    ∷ codes "/home/elokwang/mini/mini_project"
    ∷ codes "/root/mini/mini_project"
    ∷ []

-- `v[n]` of a vector; `none` is out of range.
abbrev pub at : List Bytes → ℕ → Option Bytes
at [] n = none
at (x ∷ xs) zero = some x
at (x ∷ xs) (suc n) = at xs n

abbrev pub at_int : List Bytes → ℤ → Option Bytes
at_int xs (pos n) = at xs n
at_int xs (negsuc n) = none

-- The command that is run; `none` is an index that is out of range of a table.
unfoldable pub send_file : Passwords → ℤ → Bytes → Option Bytes
send_file passwords node_id file_name = do
  ip ← at_int node_ip node_id
  name ← at_int user node_id
  word ← at_int (passwd passwords) node_id
  place ← at_int dest node_id
  some (
      codes "./autoscp.sh "
      ++ ip
      ++ codes " "
      ++ name
      ++ codes " "
      ++ word
      ++ codes " "
      ++ file_name
      ++ codes " "
      ++ place)
