-- ===== src/Examples/Database.antt =====
-- A database that keeps what is set, and what the reader stores in it.
use distributed_task_dispath.Prelude.{
  suc, ◌-◌, ◌<◌, true, List, [], ◌∷◌, ◌++◌, Option, some, ◌≡◌, refl, arith, length, take, drop,
  if◌then◌else◌, SameItems, append_assoc,
}
use distributed_task_dispath.Prelude.Int.{ℤ, pos}
use distributed_task_dispath.Bytes.{Bytes, codes, bytes_eq, find}
use distributed_task_dispath.Bytes.Equality.{bytes_eq_ne}
use distributed_task_dispath.Bytes.Search.{Lacks, find-Lacks, take-append}
use distributed_task_dispath.Bytes.Decimal.{atoi, to_string, to_string_int}
use distributed_task_dispath.Work.Command.{drop_past}
use distributed_task_dispath.Tendis.{Tendis}
use distributed_task_dispath.Tendis.KeyValue.{KeyValue, IsArgument}
use distributed_task_dispath.Recovery.Merge.{ascending}
use distributed_task_dispath.Recovery.Blocks.{create_block}
use distributed_task_dispath.Reader.{insert_to_redis, has_id, line_id}
use distributed_task_dispath.Reader.Restored.{insert_to_redis-create_block}
use distributed_task_dispath.Reader.Restored.Lines.{IsLine}
use distributed_task_dispath.Examples.Service.{Nodes, lookup}
use distributed_task_dispath.Examples.Recovery.{queue}
use distributed_task_dispath.Examples.Csv.{sorter}

-- The arguments of `set`: the key, and the text behind the space.
abbrev set_key : Bytes → Bytes
set_key arguments = take (find 32 arguments - 1) arguments

abbrev set_text : Bytes → Bytes
set_text arguments = drop (find 32 arguments) arguments

abbrev put : Bytes → Bytes → Nodes → Nodes
put key str d = if bytes_eq str [] then d else (key, str) ∷ d

abbrev run : Bytes → Nodes → Option (Option Bytes) × Nodes
run cmd d =
    let arguments = drop 4 cmd in
    if bytes_eq (take 4 cmd) (codes "get ")
    then (some (lookup d arguments), d)
    else (some (some (codes "OK")), put (set_key arguments) (set_text arguments) d)

abbrev keeper : Tendis
keeper = record { Data = Nodes; command = run }

set_key_lem : (key str : Bytes) → Lacks 32 key → set_key (key ++ 32 ∷ str) ≡ key
set_key_lem key str h =
    let size : suc (length key) - 1 ≡ length key = omega arith in
    rw (find-Lacks 32 key str h, size) (take-append key (32 ∷ str))

set_text_lem : (key str : Bytes) → Lacks 32 key → set_text (key ++ 32 ∷ str) ≡ str
set_text_lem key str h = rw (find-Lacks 32 key str h) (drop_past key 32 str)

keeper-set :
    (d : Nodes) (key str q : Bytes)
    → IsArgument key
    → IsArgument str
    → lookup (run (codes "set " ++ key ++ codes " " ++ str) d).1 q
      ≡ (if bytes_eq key q then some str else lookup d q)
keeper-set d key str q k s =
    let text = bytes_eq_ne str [] s.some_byte in
    rw
      (
        append_assoc key (codes " ") str,
        set_key_lem key str k.no_space,
        set_text_lem key str k.no_space,
        text,
      )
      refl

keeper_nothing :
    (d : Nodes) (key q : Bytes)
    → IsArgument key
    → lookup (run (codes "set " ++ key ++ codes " ") d).1 q ≡ lookup d q
keeper_nothing d key q k = rw (set_text_lem key [] k.no_space) refl

abbrev keeps : KeyValue keeper
keeps = record {
  value = lookup;
  get_lem = λ d key h. refl;
  value-set = keeper-set;
  set_nothing = keeper_nothing;
}

-- The node's file: three lines of task 7, not in order, and one of task 8.
abbrev node_file : List Bytes
node_file =
    (codes "7,3,c" ++ 10 ∷ [])
    ∷ (codes "8,2,b" ++ 10 ∷ [])
    ∷ (codes "7,1,a" ++ 10 ∷ [])
    ∷ (codes "7,4,d" ++ 10 ∷ [])
    ∷ []

of_body :
    (body : Bytes)
    → Lacks 10 body
    → Lacks 32 body
    → Lacks b'%' body
    → Lacks 0 body
    → length (body ++ 10 ∷ []) < 40
    → IsLine (body ++ 10 ∷ [])
of_body body e s p z h = record {
  body = body;
  ends = refl;
  one_end = e;
  no_space = s;
  no_percent = p;
  no_zero = z;
  fits = h;
}

insert_to_redis-create_block_example :
    (d' : Nodes) × (max_line : ℤ) × (out : List Bytes) × (insert_to_redis keeper
        (pos 0)
        2
        (pos 7)
        node_file
        []
      ≡ some d')
    × (create_block sorter keeper (pos 7) (pos 0) queue 10 10 d' ≡ some ((max_line, out), d'))
    × (ascending out ≡ true)
    × SameItems out
        ((codes ",3,c" ++ 10 ∷ []) ∷ (codes ",1,a" ++ 10 ∷ []) ∷ (codes ",4,d" ++ 10 ∷ []) ∷ [])
unfolding has_id line_id find atoi to_string_int to_string
insert_to_redis-create_block_example =
    insert_to_redis-create_block keeps 7 0 queue sorter 2 10 10 node_file [] (omega arith)
      (omega arith) refl
      (
        of_body (codes ",3,c") (ground arith) (ground arith) (ground arith) (ground arith)
            (omega arith),
        (
          of_body (codes ",1,a") (ground arith) (ground arith) (ground arith) (ground arith)
              (omega arith),
          (
            of_body (codes ",4,d") (ground arith) (ground arith) (ground arith) (ground arith)
                (omega arith),
            tt,
          ),
        ),
      )
      (λ j. refl) (omega arith) (omega arith)
