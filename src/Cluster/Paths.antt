-- ===== src/Cluster/Paths.antt =====
-- The paths of _zk_server/clust_comm.h, and `sprintf(path, "%s/%s", parent, name)`.
use distributed_task_dispath.Prelude.{[], ◌∷◌, ◌++◌, ◌≡◌, ◌≢◌, false, arith}
use distributed_task_dispath.Bytes.{Bytes, codes, bytes_eq}
use distributed_task_dispath.Bytes.Equality.{append_cancel, bytes_eq_ne}

abbrev pub g_path_elect : Bytes
g_path_elect = codes "/elect"

abbrev pub g_path_works : Bytes
g_path_works = codes "/works"

abbrev pub g_path_files : Bytes
g_path_files = codes "/files"

unfoldable pub child : Bytes → Bytes → Bytes
child parent name = parent ++ b'/' ∷ name

-- Different names stand at different paths.
pub child_ne : (p a b : Bytes) → a ≢ b → bytes_eq (child p a) (child p b) ≡ false
unfolding child
child_ne p a b h =
    bytes_eq_ne _ _ λ e. h (append_cancel (b'/' ∷ []) a b (append_cancel p (b'/' ∷ a) (b'/' ∷ b) e))

-- A worker's node is no file's node.
pub works_ne_files : (a b : Bytes) → bytes_eq (child g_path_works a) (child g_path_files b) ≡ false
unfolding child
works_ne_files a b = ground arith

pub files_ne_works : (a b : Bytes) → bytes_eq (child g_path_files a) (child g_path_works b) ≡ false
unfolding child
files_ne_works a b = ground arith

pub files_ne_elect : (a b : Bytes) → bytes_eq (child g_path_files a) (child g_path_elect b) ≡ false
unfolding child
files_ne_elect a b = ground arith

pub works_ne_elect : (a b : Bytes) → bytes_eq (child g_path_works a) (child g_path_elect b) ≡ false
unfolding child
works_ne_elect a b = ground arith

-- Neither is the root of the files.
pub works_ne_root : (a : Bytes) → bytes_eq (child g_path_works a) g_path_files ≡ false
unfolding child
works_ne_root a = ground arith

pub files_ne_root : (a : Bytes) → bytes_eq (child g_path_files a) g_path_files ≡ false
unfolding child
files_ne_root a = ground arith
