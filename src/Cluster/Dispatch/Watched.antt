-- ===== src/Cluster/Dispatch/Watched.antt =====
-- The watches of a dispatch. A watch fires once, so what the monitor is to hear of again it has to
-- ask for again.
use distributed_task_dispath.Prelude.{
  Bool, true, false, List, [], ◌∷◌, some, ◌≡◌, ◌⊎◌, refl, subst, inl, inr, Bool-cases, List-cases,
  All, All-map, All-In, All-intro, In, if◌then◌else◌, ◌==◌,
}
use distributed_task_dispath.Bytes.{Bytes}
use distributed_task_dispath.Zookeeper.{
  Zookeeper, World, Buffer, Watch, on_data, on_children, zeroed, first, pad, zoo_get,
  zoo_get_children, zoo_set, sleep,
}
use distributed_task_dispath.Cluster.Paths.{g_path_files, g_path_works, child}
use distributed_task_dispath.Cluster.Dispatch.{
  stop_command, is_idle, offer, assign, stop_rest, dispatch_work,
}
use distributed_task_dispath.Cluster.Dispatch.Loops.{Sendable}

module _ {zk : Zookeeper} where
  -- The watch on a worker's node is asked for.
  abbrev pub Watched : World zk → Bytes → Type 0
  Watched w k = In (on_data (child g_path_works k)) w.watches

  -- No watch is given up.
  abbrev pub Grows : World zk → World zk → Type 0
  Grows w w' = (h : Watch) → In h w.watches → In h w'.watches

  -- Each of some workers is watched, or still ahead of the loop.
  abbrev Passed : World zk → List Bytes → List Bytes → Type 0
  Passed w ahead = All (λ k. In k ahead ⊎ Watched w k)

  none-Passed : (w : World zk) (wks : List Bytes) → Passed w wks wks
  none-Passed w wks = All-intro _ wks λ k i. inl i

  Passed-later :
      (w w' : World zk) (mid ahead wks : List Bytes)
      → Grows w w'
      → Passed w mid wks
      → Passed w' ahead mid
      → Passed w' ahead wks
  Passed-later w w' mid ahead wks g p q =
      All-map (λ k. In k mid ⊎ Watched w k) (λ k. In k ahead ⊎ Watched w' k) wks
        (λ k c. elim c [ inl i ↦ All-In _ mid i q | inr h ↦ inr (g _ h) ]) p

module _ {zk : Zookeeper} (localhost : Bytes) where
  offer-Passed :
      (fl : Bytes) (wks : List Bytes) (b : Buffer) (w : World zk)
      → Sendable fl
      → (wks' : List Bytes) × (b' : Buffer) × (w' : World zk) × (offer zk localhost fl wks b w
          ≡ some (wks', b', w'))
        × Grows w w'
        × Passed w' wks' wks
  unfolding offer zoo_get zoo_set sleep
  offer-Passed fl [] b w c = ([], b, w, refl, λ h i. i, tt)
  offer-Passed fl (wk ∷ wks) b w (c, e) =
      let (ret, b1, w1) = zoo_get zk true (child g_path_works wk) b w in
      elim (Bool-cases (is_idle zk localhost b1 wk)) [
        | inl free ↦
            let w2 : World zk = sleep zk 10 (zoo_set zk (child g_path_works wk) (pad 512 c) w1) in
            (wk ∷ wks, b1, w2, rw (free, e) refl, λ h i. inr i, none-Passed w2 (wk ∷ wks))
        | inr busy ↦
            let (wks', b', w', run, grows, passed) = offer-Passed fl wks b1 w1 (c, e) in
            (wks', b', w', rw busy run, λ h i. grows h (inr i), (inr (grows _ (inl refl)), passed))
      ]

  assign-Passed :
      (fls wks : List Bytes) (fb wb : Buffer) (w : World zk)
      → All Sendable fls
      → (r : Bool × List Bytes × Buffer × World zk) × (assign zk localhost fls wks fb wb w ≡ some r)
        × Grows w r.3
        × Passed r.3 r.1 wks
        × (r.0 ≡ false → r.1 ≡ [])
  unfolding assign zoo_get
  assign-Passed [] wks fb wb w c =
      ((true, wks, wb, w), refl, λ h i. i, none-Passed w wks, λ e. absurd (cc))
  assign-Passed (fl ∷ fls) wks fb wb w (c, cs) =
      let (ret, fb1, w1) = zoo_get zk false (child g_path_files fl) fb w in
      elim (Bool-cases (first fb1.bytes == b'r')) [
        | inr h ↦
            let (r, run, grows, passed, ended) = assign-Passed fls wks fb1 wb w1 cs in
            (r, rw (h, assign) run, grows, passed, ended)
        | inl h ↦
            let (wks', wb', w', run, grows, passed) = offer-Passed fl wks wb w1 c in
            elim (List-cases wks') [
              | inl e ↦ (
                (false, [], wb', w'),
                rw (h, run, e, assign) refl,
                grows,
                subst (λ l. Passed w' l wks) e passed,
                λ f. refl,
              )
              | inr (wk, rest, e) ↦
                  let (r, run', grows', passed', ended) =
                    assign-Passed fls (wk ∷ rest) fb1 wb' w' cs in
                  (
                    r,
                    rw (h, run, e, assign) run',
                    λ h i. grows' h (grows h i),
                    Passed-later w' r.3 (wk ∷ rest) r.1 wks grows'
                        (subst (λ l. Passed w' l wks) e passed) passed',
                    ended,
                  )
            ]
      ]

  stop_rest-Watched :
      (wks : List Bytes) (b : Buffer) (w : World zk)
      → Grows w (stop_rest zk localhost wks b w)
        × All (Watched (stop_rest zk localhost wks b w)) wks
  unfolding stop_rest zoo_get zoo_set
  stop_rest-Watched [] b w = (λ h i. i, tt)
  stop_rest-Watched (wk ∷ wks) b w =
      let (ret, b1, w1) = zoo_get zk true (child g_path_works wk) b w in
      let w2 : World zk =
        (if is_idle zk localhost b1 wk
          then zoo_set zk (child g_path_works wk) (pad 512 stop_command) w1
          else w1) in
      let (grows, rest) = stop_rest-Watched wks b1 w2 in
      let told : Grows w1 w2 = by_test (is_idle zk localhost b1 wk) w1 in
      (λ h i. grows h (told h (inr i)), (grows _ (told _ (inl refl)), rest))
    where
      by_test :
          (b : Bool) (v : World zk)
          → Grows v (if b then zoo_set zk (child g_path_works wk) (pad 512 stop_command) v else v)
      by_test true v = λ h i. i
      by_test false v = λ h i. i

  -- With files for which a command can be written, a dispatch returns. Whatever watches were left
  -- before it, after it the monitor has asked for one on the children of /works and for one on the
  -- node of each worker, whether the worker got a file, was told to stop, or was at work; and it has
  -- given up none.
  pub dispatch_work-Watched :
      (w : World zk) (fls wks : List Bytes)
      → zk.get_children w.store g_path_files ≡ some fls
      → zk.get_children w.store g_path_works ≡ some wks
      → All Sendable fls
      → (w' : World zk) × (dispatch_work zk localhost w ≡ some w')
        × In (on_children g_path_works) w'.watches
        × All (Watched w') wks
        × Grows w w'
  unfolding dispatch_work zoo_get_children
  dispatch_work-Watched w fls wks ef ew c =
      let w2 : World zk = (zoo_get_children zk true g_path_works w).1 in
      let (r, run, grows, passed, ended) = assign-Passed fls wks (zeroed 64) (zeroed 64) w2 c in
      elim (Bool-cases r.0) [
        | inl full ↦
            let (grows', rest) = stop_rest-Watched r.1 r.2 r.3 in
            (
              stop_rest zk localhost r.1 r.2 r.3,
              rw (ef, ew, run, full),
              grows' _ (grows _ (inl refl)),
              All-map _ _ wks (λ k p. elim p [ inl i ↦ All-In _ r.1 i rest | inr h ↦ grows' _ h ])
                  passed,
              λ h i. grows' h (grows h (inr i)),
            )
        | inr short ↦ (
          r.3,
          rw (ef, ew, run, short),
          grows _ (inl refl),
          All-map _ _ wks
              (λ k p. elim p [ inl i ↦ absurd (subst (λ l. In k l) (ended short) i) | inr h ↦ h ])
              passed,
          λ h i. grows h (inr i),
        )
      ]
