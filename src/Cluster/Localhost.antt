-- ===== src/Cluster/Localhost.antt =====
-- `GetIP` and `getlocalhost` of _zk_server/clust_comm.cpp: the name of a process, "<ip>:<pid>".
-- The ioctl on a device is a parameter, which gives the address in text.
pub mod Fits
use distributed_task_dispath.Prelude.{
  ℕ, ◌-◌, Bool, true, false, List, [], ◌∷◌, ◌++◌, Option, none, some, take,
}
use distributed_task_dispath.Bytes.{Bytes, codes}
use distributed_task_dispath.Bytes.Decimal.{to_string}

-- The two loops of `GetIP`, over the types and over the digits; the last argument is `strip`.
unfoldable pub try_units : (Bytes → Option Bytes) → Bytes → Bytes → Bytes → Bool × Bytes
try_units device_ip net [] strip = (false, strip)
try_units device_ip net (c ∷ cs) strip = elim (device_ip (net ++ c ∷ [])) [
  | none ↦ try_units device_ip net cs strip
  | some ip ↦ elim ip [ [] ↦ try_units device_ip net cs [] | x ∷ rest ↦ (true, x ∷ rest) ]
]

unfoldable pub get_ip : (Bytes → Option Bytes) → List Bytes → Bytes → Bool × Bytes
unfolding try_units
get_ip device_ip [] strip = (false, strip)
get_ip device_ip (net ∷ nets) strip =
    let (found, ip) = try_units device_ip net (codes "0123456789") strip in
    elim found [ true ↦ (true, ip) | false ↦ get_ip device_ip nets ip ]

-- `snprintf` writes at most `len - 1` bytes.
unfoldable pub getlocalhost : (Bytes → Option Bytes) → ℕ → ℕ → Bytes
unfolding get_ip
getlocalhost device_ip pid len =
    let (found, str) = get_ip device_ip (codes "eth" ∷ []) [] in
    take (len - 1) (str ++ codes ":" ++ to_string pid)
