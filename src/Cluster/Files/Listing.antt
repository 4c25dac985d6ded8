-- ===== src/Cluster/Files/Listing.antt =====
-- `show_list` of _zk_server/clust_comm.cpp, and what it prints.
use mathlib.Core.Option
use distributed_task_dispath.Prelude.{
  ℕ, ◌<◌, true, List, [], ◌∷◌, ◌++◌, Option, none, some, ◌≡◌, ◌≢◌, refl, ap, ◌∙◌, arith, All, map,
  drop, take, suc, zero, if◌then◌else◌,
}
use distributed_task_dispath.Bytes.{Bytes, codes, c_str}
use distributed_task_dispath.Zookeeper.{
  Zookeeper, World, Buffer, zeroed, zoo_get, zoo_get_children, fill,
}
use distributed_task_dispath.Zookeeper.Laws.{Laws}
use distributed_task_dispath.Cluster.Paths.{g_path_files, child}

module _ (zk : Zookeeper) where
  -- The loop over the children; a name that cannot be read goes to stderr.
  unfoldable pub show_names : List Bytes → Buffer → World zk → List Bytes × World zk
  unfolding zoo_get
  show_names [] b w = ([], w)
  show_names (name ∷ names) b w =
      let (ret, b', w1) = zoo_get zk true (child g_path_files name) b w in
      let (lines, w2) = show_names names b' w1 in
      (if ret then (name ++ codes ":" ++ c_str b'.bytes) ∷ lines else lines, w2)

  -- The lines that are printed. `none` is the loop that frees a vector which a failed call left unset.
  unfoldable pub show_list : World zk → Option (List Bytes × World zk)
  unfolding show_names zoo_get_children
  show_list w =
      let (children, w1) = zoo_get_children zk true g_path_files w in
      elim children [ none ↦ none | some names ↦ some (show_names names (zeroed 1024) w1) ]

module _ {zk : Zookeeper} (laws : Laws zk) where
  -- A buffer with room, in which at most the first byte is not zero.
  record OneByte (b : Buffer) : Type 0 where
    room : 0 < b.len
    rest : c_str (drop 1 b.bytes) ≡ []

  -- The file's node holds one byte, which is not zero.
  abbrev pub HasStatus : zk.Store → (Bytes → ℕ) → Bytes → Type 0
  HasStatus s status_of name =
      (laws.node s (child g_path_files name) ≡ some (status_of name ∷ [])) × (status_of name ≢ 0)

  filled :
      (b : Buffer) (c : ℕ)
      → OneByte b
      → fill b (Option.map (take b.len) (some (c ∷ [])))
        ≡ record { bytes = c ∷ drop 1 b.bytes; len = 1 }
  filled b c o = by_room b.len o.room
    where
      by_room :
          (n : ℕ)
          → 0 < n
          → fill b (Option.map (take n) (some (c ∷ [])))
            ≡ record { bytes = c ∷ drop 1 b.bytes; len = 1 }
      by_room zero h = absurd (omega arith)
      by_room (suc zero) h = refl
      by_room (suc (suc n)) h = refl

  c_str_one : (c : ℕ) (s : Bytes) → c ≢ 0 → c_str s ≡ [] → c_str (c ∷ s) ≡ c ∷ []
  unfolding c_str
  c_str_one c s h e = ground (arith, e)

  no_text : c_str (drop 1 (zeroed 1024).bytes) ≡ []
  unfolding c_str
  no_text = refl

  show_names-statuses :
      (status_of : Bytes → ℕ) (names : List Bytes) (b : Buffer) (w : World zk)
      → OneByte b
      → All (HasStatus w.store status_of) names
      → (w' : World zk) × (show_names zk names b w
          ≡ (map (λ name. name ++ codes ":" ++ (status_of name ∷ [])) names, w'))
        × (w'.store ≡ w.store)
  unfolding show_names zoo_get
  show_names-statuses status_of [] b w o h = (w, refl, refl)
  show_names-statuses status_of (name ∷ names) b w o (h, hs) =
      let c : ℕ = status_of name in
      let b1 : Buffer = record { bytes = c ∷ drop 1 b.bytes; len = 1 } in
      let w1 : World zk = (zoo_get zk true (child g_path_files name) b w).2 in
      let reply : zk.get w.store (child g_path_files name) b.len
          ≡ Option.map (take b.len) (some (c ∷ [])) =
        laws.get_lem w.store (child g_path_files name) b.len ∙ ap (Option.map (take b.len)) h.0 in
      let (w', run, same) =
        show_names-statuses status_of names b1 w1 (record { room = omega arith; rest = o.rest })
          hs in
      (
        w',
        rw
            (
              reply,
              filled b c o,
              ap (λ x. x.bytes) (filled b c o),
              run,
              c_str_one c (drop 1 b.bytes) h.1 o.rest,
            )
            refl,
        same,
      )

  -- If each file under /files holds one byte, which is not zero, then show_list prints the name and
  -- the status of each, in the order of the children, and changes nothing in the store. It reads on
  -- with the length that the last read left behind, which is enough for one byte.
  pub show_list-statuses :
      (status_of : Bytes → ℕ) (names : List Bytes) (w : World zk)
      → zk.get_children w.store g_path_files ≡ some names
      → All (HasStatus w.store status_of) names
      → (w' : World zk) × (show_list zk w
          ≡ some (map (λ name. name ++ codes ":" ++ (status_of name ∷ [])) names, w'))
        × (w'.store ≡ w.store)
  unfolding show_list zoo_get_children
  show_list-statuses status_of names w e h =
      let w1 : World zk = (zoo_get_children zk true g_path_files w).1 in
      let (w', run, same) =
        show_names-statuses status_of names (zeroed 1024) w1
          (record { room = omega arith; rest = no_text }) h in
      (w', rw (e, run) refl, same)
