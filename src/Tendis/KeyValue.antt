-- ===== src/Tendis/KeyValue.antt =====
-- What the program relies on of the cluster's database for its two commands: `set` stores a text under
-- a key, `get` gives it back.
use distributed_task_dispath.Prelude.{[], ◌++◌, Option, some, ◌≡◌, ◌≢◌, if◌then◌else◌}
use distributed_task_dispath.Bytes.{Bytes, codes, bytes_eq}
use distributed_task_dispath.Bytes.Search.{Lacks}
use distributed_task_dispath.Tendis.{Tendis}

-- A text that is one argument of a command: the client splits the text of a command at the spaces,
-- and takes % for the beginning of a format.
pub record IsArgument (s : Bytes) : Type 0 where
  pub some_byte : s ≢ []
  pub no_space : Lacks 32 s
  pub no_percent : Lacks b'%' s
  pub no_zero : Lacks 0 s

pub record KeyValue (db : Tendis) : Type 0 where
  -- The text under a key.
  pub value : db.Data → Bytes → Option Bytes
  pub get_lem :
      (d : db.Data) (key : Bytes)
      → IsArgument key
      → db.command (codes "get " ++ key) d ≡ (some (value d key), d)
  pub value-set :
      (d : db.Data) (key str q : Bytes)
      → IsArgument key
      → IsArgument str
      → value (db.command (codes "set " ++ key ++ codes " " ++ str) d).1 q
        ≡ (if bytes_eq key q then some str else value d q)
  -- Without a text, `set` is refused.
  pub set_nothing :
      (d : db.Data) (key q : Bytes)
      → IsArgument key
      → value (db.command (codes "set " ++ key ++ codes " ") d).1 q ≡ value d q
