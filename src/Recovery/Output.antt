-- ===== src/Recovery/Output.antt =====
-- What `sort_nodes` of _file_recovery/re_file.cpp writes.
use distributed_task_dispath.Prelude.{
  sum, SameItems, ℕ, ◌<◌, true, List, [], ◌∷◌, ◌++◌, some, ◌≡◌, ◌∙◌, ap, sym, append_assoc,
  append-nil,
}
use distributed_task_dispath.Bytes.{Bytes}
use distributed_task_dispath.Recovery.{sort_nodes, write_line}
use distributed_task_dispath.Recovery.Queue.{PriorityQueue}
use distributed_task_dispath.Recovery.Merge.{ascending}
use distributed_task_dispath.Recovery.Trace.{emit_all}
use distributed_task_dispath.Recovery.Opened.{all_good, joined, merge_order}

write_line_all : (ls out : List Bytes) → emit_all write_line ls out ≡ some (out ++ ls)
write_line_all [] out = ap some (sym (append-nil out))
write_line_all (l ∷ ls) out =
    write_line_all ls (out ++ l ∷ []) ∙ ap some (append_assoc out (l ∷ []) ls)

-- If every block file of a task has a line and its lines ascend by number, and the fuel exceeds the
-- number of lines, then `sort_nodes` writes a file: its lines ascend by number, and they are the
-- lines of the blocks, each as often as the blocks have it.
pub sort_nodes-merges :
    (pq : PriorityQueue) (fuel : ℕ) (blocks : List (List Bytes))
    → all_good blocks ≡ true
    → sum (λ _. 1) (joined blocks) < fuel
    → (out : List Bytes) × ((sort_nodes pq fuel blocks ≡ some out)
        × ((ascending out ≡ true) × SameItems out (joined blocks)))
unfolding sort_nodes
sort_nodes-merges pq fuel blocks good enough =
    let o = merge_order pq write_line fuel blocks good enough in
    (o.order, (rw (o.opens) (o.run [] ∙ write_line_all o.order []), (o.asc, o.complete)))
