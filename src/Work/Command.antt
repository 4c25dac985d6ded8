-- ===== src/Work/Command.antt =====
-- The command that the monitor writes is what the worker reads out of it.
use distributed_task_dispath.Prelude.{
  ℕ, suc, ◌+◌, ◌-◌, ◌%◌, ◌≤◌, ◌<◌, true, false, [], ◌∷◌, ◌++◌, some, ◌≡◌, refl, ap, sym, ◌∙◌, arith,
  take, drop, length, length-append, leb, ◌⊎◌, inl, append_assoc, subst, All, All-map, All-append,
}
use distributed_task_dispath.Prelude.Int.{pos}
use distributed_task_dispath.Bytes.{Bytes, find, rfind, substr_between}
use distributed_task_dispath.Bytes.Search.{Lacks, find-Lacks, rfind_last, take-append}
use distributed_task_dispath.Bytes.Decimal.{
  to_string, to_string_int, atoi, atoi-to_string, stoi-to_string, to_string-All, IsDigit, int_max,
}
use distributed_task_dispath.Bytes.Decimal.Size.{to_string_digit, length-to_string}
use distributed_task_dispath.Zookeeper.{Zookeeper, World, pad}
use distributed_task_dispath.Zookeeper.Laws.{Laws}
use distributed_task_dispath.Cluster.Paths.{g_path_works, child}
use distributed_task_dispath.Cluster.Dispatch.Loops.{sent, sent_lem}
use distributed_task_dispath.Cluster.Worker.{recv_work}
use distributed_task_dispath.Cluster.Worker.Inbox.{recv_work-command}
use distributed_task_dispath.Cluster.Dispatch.{wk_command, calc_dest_no, dest_of}
use distributed_task_dispath.Work.{cmd_file, cmd_task, cmd_target}

-- "w_<file>_<dest>".
abbrev pub command_text : Bytes → Bytes → Bytes
command_text fl dest = b'w' ∷ b'_' ∷ (fl ++ b'_' ∷ dest)

pub drop_past : (s : Bytes) (x : ℕ) (t : Bytes) → drop (suc (length s)) (s ++ x ∷ t) ≡ t
drop_past [] x t = refl
drop_past (y ∷ s) x t = drop_past s x t

command-rfind :
    (fl dest : Bytes) → Lacks b'_' dest → rfind b'_' (command_text fl dest) ≡ suc (length fl + 2)
command-rfind fl dest h = rfind_last b'_' (b'w' ∷ b'_' ∷ fl) dest h ∙ omega arith

command-find : (fl dest : Bytes) → find b'_' (command_text fl dest) ≡ 2
command-find fl dest = find-Lacks b'_' (b'w' ∷ []) (fl ++ b'_' ∷ dest) (omega arith, tt)

-- What stands between the first and the last `_` of a command is the file's name.
pub cmd_file-command : (fl dest : Bytes) → Lacks b'_' dest → cmd_file (command_text fl dest) ≡ fl
unfolding cmd_file substr_between
cmd_file-command fl dest h =
    let past : leb (suc (length fl + 2)) 2 ≡ false = ground arith in
    let size : suc (length fl + 2) - 2 - 1 ≡ length fl = omega arith in
    rw (command-rfind fl dest h, command-find fl dest, past, size) (take-append fl (b'_' ∷ dest))

pub cmd_target-command :
    (fl dest : Bytes) → Lacks b'_' dest → cmd_target (command_text fl dest) ≡ atoi (take 1 dest)
unfolding cmd_target
cmd_target-command fl dest h =
    let three : suc (length fl + 2) ≡ suc (suc (suc (length fl))) = omega arith in
    rw (command-rfind fl dest h, three) (ap (λ t. atoi (take 1 t)) (drop_past fl b'_' dest))

pub IsDigit-Lacks : (c : ℕ) (s : Bytes) → (c < b'0') ⊎ (b'9' < c) → All IsDigit s → Lacks c s
IsDigit-Lacks c s h = All-map _ _ s λ x d e. omega arith

-- The file's number is its place in the round over the five nodes.
calc_dest_no-to_string :
    (t : ℕ) → t + 4 ≤ int_max → calc_dest_no (to_string t) ≡ some ((b'0' + (t + 4) % 5) ∷ [])
unfolding calc_dest_no dest_of to_string_int
calc_dest_no-to_string t h =
    let fits : leb (t + 4) int_max ≡ true = ground arith in
    rw (stoi-to_string t (omega arith), fits)
      (ap some (to_string_digit ((t + 4) % 5) (omega arith)))

pub wk_command-to_string :
    (t : ℕ)
    → t + 4 ≤ int_max
    → wk_command (to_string t) ≡ some (command_text (to_string t) ((b'0' + (t + 4) % 5) ∷ []))
unfolding wk_command
wk_command-to_string t h = rw (calc_dest_no-to_string t h) (
    ap (λ r. some (b'w' ∷ b'_' ∷ r))
      (append_assoc (to_string t) (b'_' ∷ []) ((b'0' + (t + 4) % 5) ∷ [])))

command-Lacks_zero : (t : ℕ) → Lacks 0 (command_text (to_string t) ((b'0' + (t + 4) % 5) ∷ []))
command-Lacks_zero t = (
  omega arith,
  (
    omega arith,
    All-append _ (to_string t) _
        (IsDigit-Lacks 0 (to_string t) (inl (omega arith)) (to_string-All t))
        (omega arith, (omega arith, tt)),
  ),
)

length-command :
    (t : ℕ) → t + 4 ≤ int_max → length (command_text (to_string t) ((b'0' + (t + 4) % 5) ∷ [])) < 64
length-command t h = omega (
  arith,
  length-to_string 10 t (omega arith) (omega arith),
  length-append {0} (to_string t) (b'_' ∷ (b'0' + (t + 4) % 5) ∷ []),
)

digit-Lacks : (d : ℕ) → Lacks b'_' ((b'0' + d % 5) ∷ [])
digit-Lacks d = (omega arith, tt)

digit-atoi : (d : ℕ) → atoi (take 1 ((b'0' + d % 5) ∷ [])) ≡ pos (d % 5)
digit-atoi d = ap atoi (sym (to_string_digit (d % 5) (omega arith))) ∙ atoi-to_string (d % 5)

cmd_task-command : (t d : ℕ) → cmd_task (command_text (to_string t) ((b'0' + d % 5) ∷ [])) ≡ pos t
unfolding cmd_task
cmd_task-command t d = ap atoi (cmd_file-command (to_string t) _ (digit-Lacks d)) ∙ atoi-to_string t

-- What a worker makes of a command: the file it is about, its number, and the node to send it to.
pub record Reads (cmd : Bytes) (t : ℕ) : Type 0 where
  pub file : cmd_file cmd ≡ to_string t
  pub task : cmd_task cmd ≡ pos t
  pub target : cmd_target cmd ≡ pos ((t + 4) % 5)

module _ {zk : Zookeeper} (laws : Laws zk) where
  -- If a worker's node holds what the monitor sends for the file of task `t`, in the 512 bytes
  -- that it writes, then what the worker receives and parses is that file, the number `t`, and
  -- the node `(t + 4) % 5`; `t + 4` is an int.
  pub received-Reads :
      (localhost : Bytes) (w : World zk) (t : ℕ)
      → t + 4 ≤ int_max
      → laws.node w.store (child g_path_works localhost) ≡ some (pad 512 (sent (to_string t)))
      → Reads (recv_work zk localhost w).0 t
  received-Reads localhost w t h e =
      let d : ℕ = t + 4 in
      let cmd : Bytes = command_text (to_string t) ((b'0' + d % 5) ∷ []) in
      let e' =
        e ∙ ap (λ c. some (pad 512 c)) (sent_lem (to_string t) cmd (wk_command-to_string t h)) in
      let got =
        recv_work-command laws localhost cmd w e' refl (command-Lacks_zero t)
          (length-command t h) in
      subst (λ c. Reads c t) (sym got)
        (record {
          file = cmd_file-command (to_string t) _ (digit-Lacks d);
          task = cmd_task-command t d;
          target = cmd_target-command (to_string t) _ (digit-Lacks d) ∙ digit-atoi d;
        })
