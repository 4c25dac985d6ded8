-- ===== src/Reader/Load.antt =====
-- The class read_csv of _read_csv/read_csv.cpp: its static members, the setters, and `load`, which
-- gives one task to the pool for each task number that the file has.
pub mod Once
use distributed_task_dispath.Prelude.{
  ℕ, zero, suc, ◌+◌, Bool, true, false, List, [], ◌∷◌, ◌++◌, Option, none, some, get_or, replicate,
  length, ltb, if◌then◌else◌,
}
use distributed_task_dispath.Prelude.Int.{ℤ, pos}
use distributed_task_dispath.Bytes.{Bytes, codes}
use distributed_task_dispath.Bytes.Decimal.{to_string}
use distributed_task_dispath.Reader.{find_total_task_num}

pub record ReadCsv : Type 0 where
  pub path : Bytes
  pub file_name : Bytes
  pub ip_port : Bytes
  pub limit : ℕ
  pub thread_num : ℕ
  pub total_task : ℕ
  pub node_id : ℤ
  pub line_per_insert : ℕ
  pub loop_num : ℕ
  pub is_member_of_task : List Bool

-- The members as they are defined; the constructor sets the flags once more.
abbrev pub defaults : ReadCsv
defaults = record {
  path = [];
  file_name = [];
  ip_port = [];
  limit = 0;
  thread_num = 10;
  total_task = 10;
  node_id = pos 1;
  line_per_insert = 55000;
  loop_num = 50;
  is_member_of_task = replicate 100 false;
}

abbrev pub new_read_csv : ReadCsv → ReadCsv
new_read_csv r = record r { is_member_of_task = replicate 100 false }

abbrev pub get_path : ReadCsv → Bytes
get_path r = r.path

abbrev pub get_file_name : ReadCsv → Bytes
get_file_name r = r.file_name

abbrev pub set_path : Bytes → ReadCsv → ReadCsv
set_path path r = record r { path = path }

abbrev pub set_file_name : Bytes → ReadCsv → ReadCsv
set_file_name file_name r = record r { file_name = file_name }

abbrev pub set_node_id : ℤ → ReadCsv → ReadCsv
set_node_id node_id r = record r { node_id = node_id }

abbrev pub set_thread_num : ℕ → ReadCsv → ReadCsv
set_thread_num thread_num r = record r { thread_num = thread_num }

abbrev pub set_line_per_insert : ℕ → ReadCsv → ReadCsv
set_line_per_insert line_per_insert r = record r { line_per_insert = line_per_insert }

abbrev pub set_loop_num : ℕ → ReadCsv → ReadCsv
set_loop_num loop_num r = record r { loop_num = loop_num }

abbrev pub set_ip_port : Bytes → ReadCsv → ReadCsv
set_ip_port ip_port r = record r { ip_port = ip_port }

-- The numbers from `i` on, `left` of them, whose flag is set. `none` is a read behind the flags.
unfoldable pub members_from : List Bool → ℕ → ℕ → Option (List ℕ)
members_from flags zero i = some []
members_from flags (suc left) i =
    let rest = members_from flags left (suc i) in
    elim (ltb i (length flags)) [
      | false ↦ none
      | true ↦ elim rest [
        | none ↦ none
        | some tasks ↦ some (if get_or flags i false then i ∷ tasks else tasks)
      ]
    ]

-- The tasks that `load` gives to the pool, in its order.
unfoldable pub load_tasks : ReadCsv → Option (List ℕ)
unfolding members_from
load_tasks r = members_from r.is_member_of_task r.loop_num 0

-- `FindTotalTaskNum` on the lines of the file.
unfoldable pub find_tasks : List Bytes → ReadCsv → Option ReadCsv
unfolding find_total_task_num
find_tasks lines r = elim (find_total_task_num lines r.is_member_of_task) [
  | none ↦ none
  | some flags ↦ some (record r { is_member_of_task = flags })
]

-- `main` of _read_csv/main.cpp up to `load`: `ip_port_conf` is what conf.txt begins with.
unfoldable pub main_read_csv : Bytes → List Bytes → Option ReadCsv
unfolding find_tasks
main_read_csv ip_port_conf lines = find_tasks lines (
    set_ip_port ip_port_conf (
      set_line_per_insert 1000 (
        set_loop_num 20 (
          set_thread_num 10 (
            set_node_id (pos 1) (
              set_file_name (codes "test2.csv")
                (set_path (codes "./data/") (new_read_csv defaults))))))))
