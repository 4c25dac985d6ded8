-- ===== src/Cluster/Localhost/Fits.antt =====
-- The name of a process is as long as `regist` writes it.
use distributed_task_dispath.Prelude.{
  ℕ, ◌^◌, ◌<◌, ◌≤◌, ◌⊎◌, inr, Bool, true, false, List, [], ◌∷◌, ◌++◌, Option, some, ◌≡◌, ◌≢◌, refl,
  inl, arith, All, All-map, All-append, Option-cases, take, length, length-append, take_all,
}
use distributed_task_dispath.Bytes.{Bytes, codes}
use distributed_task_dispath.Bytes.Decimal.{to_string, to_string-All, IsDigit}
use distributed_task_dispath.Bytes.Decimal.Size.{length-to_string}
use distributed_task_dispath.Cluster.Localhost.{try_units, get_ip, getlocalhost}

-- What `inet_ntoa` gives: at most 15 bytes, digits and points.
pub record IsAddress (ip : Bytes) : Type 0 where
  pub short : length ip ≤ 15
  pub text : All (λ c. IsDigit c ⊎ (c ≡ b'.')) ip

no-IsAddress : IsAddress []
no-IsAddress = record { short = omega arith; text = tt }

module _ (device_ip : Bytes → Option Bytes)
    (known : (d ip : Bytes) → device_ip d ≡ some ip → IsAddress ip) where
  try_units-IsAddress :
      (net cs strip : Bytes) → IsAddress strip → IsAddress (try_units device_ip net cs strip).1
  unfolding try_units
  try_units-IsAddress net [] strip h = h
  try_units-IsAddress net (c ∷ cs) strip h = elim (Option-cases (device_ip (net ++ c ∷ []))) [
    | inl e ↦ rw (e, try_units) (try_units-IsAddress net cs strip h)
    | inr (ip, e) ↦
        rw (e, try_units) (by_ip (try_units-IsAddress net cs [] no-IsAddress) ip (known _ ip e))
  ]
    where
      by_ip :
          IsAddress (try_units device_ip net cs []).1
          → (ip : Bytes) → IsAddress ip
          → IsAddress
              (elim ip as (λ x. Bool × Bytes) [
                | [] ↦ try_units device_ip net cs []
                | x ∷ rest ↦ (true, x ∷ rest)
              ]).1
      by_ip others [] a = others
      by_ip others (x ∷ rest) a = a

  get_ip-IsAddress :
      (nets : List Bytes) (strip : Bytes)
      → IsAddress strip
      → IsAddress (get_ip device_ip nets strip).1
  unfolding get_ip
  get_ip-IsAddress [] strip h = h
  get_ip-IsAddress (net ∷ nets) strip h =
      let r = try_units device_ip net (codes "0123456789") strip in
      let a = try_units-IsAddress net (codes "0123456789") strip h in
      by_found r.0 r.1 (get_ip-IsAddress nets r.1 a) a
    where
      by_found :
          (found : Bool) (ip : Bytes)
          → IsAddress (get_ip device_ip nets ip).1
          → IsAddress ip
          → IsAddress
              (elim found as (λ x. Bool × Bytes) [
                | true ↦ (true, ip)
                | false ↦ get_ip device_ip nets ip
              ]).1
      by_found true ip rest a = a
      by_found false ip rest a = rest

  -- Where the addresses of the devices are texts of at most 15 bytes, digits and points, and the
  -- number of the process is below 10 ^ 7, the name is the address, a colon and the number, not cut
  -- off, and has at most the 24 bytes that `regist` writes, none of them zero or a slash.
  pub getlocalhost-fits :
      (pid : ℕ)
      → pid < 10 ^ 7
      → (getlocalhost device_ip pid 512
          ≡ (get_ip device_ip (codes "eth" ∷ []) []).1 ++ codes ":" ++ to_string pid)
        × (length (getlocalhost device_ip pid 512) ≤ 24)
        × All (λ c. (c ≢ 0) × (c ≢ b'/')) (getlocalhost device_ip pid 512)
  unfolding getlocalhost
  getlocalhost-fits pid h =
      let ip : Bytes = (get_ip device_ip (codes "eth" ∷ []) []).1 in
      let a = get_ip-IsAddress (codes "eth" ∷ []) [] no-IsAddress in
      let name : Bytes = ip ++ codes ":" ++ to_string pid in
      let size : length name ≤ 24 = omega (
        arith,
        length-append (ip ++ codes ":") (to_string pid),
        length-append ip (codes ":"),
        length-to_string 7 pid h (omega arith),
        a.short,
      ) in
      let whole : take 511 name ≡ name = take_all 511 name (omega (arith, size)) in
      rw whole (
        refl,
        size,
        All-append _ (ip ++ codes ":") (to_string pid)
            (All-append _ ip (codes ":") (All-map _ _ ip address a.text)
              ((omega arith, omega arith), tt))
            (All-map _ _ (to_string pid) digit (to_string-All pid)),
      )
    where
      address : (c : ℕ) → IsDigit c ⊎ (c ≡ b'.') → (c ≢ 0) × (c ≢ b'/')
      address c (inl d) = (λ e. omega (arith, d), λ e. omega (arith, d))
      address c (inr d) = (λ e. omega (arith, d), λ e. omega (arith, d))

      digit : (c : ℕ) → IsDigit c → (c ≢ 0) × (c ≢ b'/')
      digit c d = (λ e. omega (arith, d), λ e. omega (arith, d))
