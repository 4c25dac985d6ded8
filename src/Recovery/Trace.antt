-- ===== src/Recovery/Trace.antt =====
-- The merge loop handles the lines of a trace, one after the other.
use distributed_task_dispath.Prelude.{
  sum, ℕ, zero, suc, ◌+◌, ◌≤◌, ◌<◌, true, List, [], ◌∷◌, Option, none, some, ◌≡◌, ◌≢◌, refl, ap,
  ◌∙◌, ◌⊎◌, inl, inr, arith, length, get_or, Option-cases, subst, lt→ltb,
}
use mathlib.Core.Path.{ap₂}
use distributed_task_dispath.Prelude.Int.{ℤ}
use distributed_task_dispath.Bytes.{Bytes}
use distributed_task_dispath.Recovery.{line_num, Stream, closed, put, merge_loop}
use distributed_task_dispath.Recovery.Queue.{PriorityQueue, Entry}
use distributed_task_dispath.Recovery.Merge.{
  below, ascending, eqz-eq, eqz_refl, lines, fits, misfit, at, weight, sum_agree, nothing_below,
  get_or-put_self, get_or-put_other, length-put,
}

-- A step for each line of a list.
abbrev pub emit_all : {S : Type 0} → (ℤ → Bytes → S → Option S) → List Bytes → S → Option S
emit_all emit [] st = some st
emit_all emit (l ∷ ls) st = elim (emit (line_num l) l st) [
  | none ↦ none
  | some st' ↦ emit_all emit ls st'
]

emit_all_stops :
    {S : Type 0} (emit : ℤ → Bytes → S → Option S) (l : Bytes) (ls : List Bytes) (st : S)
    → emit (line_num l) l st ≡ none
    → none ≡ emit_all emit (l ∷ ls) st
emit_all_stops emit l ls st h = rw (h, emit_all)

emit_all_goes :
    {S : Type 0} (emit : ℤ → Bytes → S → Option S) (l : Bytes) (ls : List Bytes) (st : S) {st' : S}
    → emit (line_num l) l st ≡ some st'
    → emit_all emit ls st' ≡ emit_all emit (l ∷ ls) st
emit_all_goes emit l ls st h = rw (h, emit_all)

List-cases : (ls : List Bytes) → (ls ≡ []) ⊎ ((l : Bytes) × (rest : List Bytes) × (ls ≡ l ∷ rest))
List-cases [] = inl refl
List-cases (l ∷ ls) = inr (l, ls, refl)

at_self : (i : ℕ) (n : ℤ) → at i (i, n) ≡ 1
at_self i n = ground arith

at_other : (i j : ℕ) (n : ℤ) → at i (j, n) ≡ 0 → j ≢ i
at_other i j n h = ground arith

module _ (pq : PriorityQueue) where
  open pq use {Queue, push, pop, items, items-push, items-pop, pop_least, pop_none}

  -- The entries fit the streams, and no stream has two.
  pub record Inv (q : Queue) (ss : List Stream) : Type 0 where
    pub fit : sum (misfit ss) (items q) ≡ 0
    pub once : (i : ℕ) → sum (at i) (items q) ≤ 1

  -- The number of lines that wait.
  abbrev pub waiting : List Stream → Queue → ℕ
  waiting ss q = sum (weight ss (λ _. 1)) (items q)

  module _ (q r : Queue) (ss : List Stream) (x : Entry) (inv : Inv q ss)
      (e : pop q ≡ some (x, r)) where
    top_fits : fits ss x ≡ true
    top_fits = ground (arith, items-pop q r x e (misfit ss), inv.fit)

    rest_fit : sum (misfit ss) (items r) ≡ 0
    rest_fit = omega (arith, items-pop q r x e (misfit ss), inv.fit)

    key : x.1 ≡ line_num (get_or ss x.0 closed).buf
    key = eqz-eq _ _ (ground (arith, top_fits))

    top_ascending : ascending (lines (get_or ss x.0 closed)) ≡ true
    top_ascending = ground (arith, top_fits)

    top_alone : sum (at x.0) (items r) ≡ 0
    top_alone = omega (arith, items-pop q r x e (at x.0), inv.once x.0, at_self x.0 x.1)

    -- Nothing that is left has a smaller number than the line on top.
    rest_above : sum (weight ss (below (line_num (get_or ss x.0 closed).buf))) (items r) ≡ 0
    rest_above =
        subst (λ n. sum (weight ss (below n)) (items r) ≡ 0) key
          (nothing_below ss x.1 (items r) rest_fit (pop_least q r x e))

    Inv-rest : Inv r ss
    Inv-rest = record {
      fit = rest_fit;
      once = λ i. omega (arith, items-pop q r x e (at i), inv.once i);
    }

    -- Another line in the buffer of the top entry changes nothing for the other entries.
    weight-put :
        (s : Stream) (g : Bytes → ℕ)
        → sum (weight (put ss x.0 s) g) (items r) ≡ sum (weight ss g) (items r)
    weight-put s g =
        sum_agree (at x.0) (weight (put ss x.0 s) g) (weight ss g) (items r) top_alone
          λ y h. ap (λ t. sum g (lines t)) (get_or-put_other ss x.0 y.0 s (at_other x.0 y.0 y.1 h))

    misfit-put : (s : Stream) → sum (misfit (put ss x.0 s)) (items r) ≡ sum (misfit ss) (items r)
    misfit-put s =
        sum_agree (at x.0) (misfit (put ss x.0 s)) (misfit ss) (items r) top_alone
          λ y h. rw (get_or-put_other ss x.0 y.0 s (at_other x.0 y.0 y.1 h), length-put ss x.0 s)

    module _ (l : Bytes) (ls : List Bytes) where
      top_in_range : x.0 < length ss
      top_in_range = ground (arith, top_fits)

      pushed_weight :
          (g : Bytes → ℕ)
          → sum
              (weight (put ss x.0 (record { buf = l; rest = ls })) g)
              (items (push (x.0, line_num l) r))
            ≡ sum g (l ∷ ls) + sum (weight ss g) (items r)
      pushed_weight g =
          let s : Stream = record { buf = l; rest = ls } in
          items-push (x.0, line_num l) r (weight (put ss x.0 s) g)
          ∙ ap₂ ◌+◌ (ap (λ t. sum g (lines t)) (get_or-put_self ss x.0 s top_in_range))
              (weight-put s g)

      module _ (more : (get_or ss x.0 closed).rest ≡ l ∷ ls) where
        next_ascending : sum (below (line_num (get_or ss x.0 closed).buf)) (l ∷ ls) ≡ 0
        next_ascending = ground (arith, rw more at top_ascending)

        new_fits : fits (put ss x.0 (record { buf = l; rest = ls })) (x.0, line_num l) ≡ true
        new_fits =
            let s : Stream = record { buf = l; rest = ls } in
            let asc : ascending (l ∷ ls) ≡ true = ground (arith, rw more at top_ascending) in
            rw (
              get_or-put_self ss x.0 s top_in_range,
              length-put ss x.0 s,
              lt→ltb x.0 (length ss) top_in_range,
              eqz_refl (line_num l),
              asc,
            )

        Inv-next : Inv (push (x.0, line_num l) r) (put ss x.0 (record { buf = l; rest = ls }))
        Inv-next =
            let s : Stream = record { buf = l; rest = ls } in
            let new : misfit (put ss x.0 s) (x.0, line_num l) ≡ 0 = rw new_fits in
            record {
              fit = omega (
                arith,
                items-push (x.0, line_num l) r (misfit (put ss x.0 s)),
                new,
                misfit-put s,
                rest_fit,
              );
              once = λ j. omega (
                arith,
                items-push (x.0, line_num l) r (at j),
                items-pop q r x e (at j),
                inv.once j,
              );
            }

  module _ {S : Type 0} (emit : ℤ → Bytes → S → Option S) where
    pub record Trace (fuel : ℕ) (q : Queue) (ss : List Stream) : Type 0 where
      pub trace : List Bytes
      pub asc : ascending trace ≡ true
      pub complete : (g : Bytes → ℕ) → sum g trace ≡ sum (weight ss g) (items q)
      pub run : (st : S) → merge_loop pq emit fuel q ss st ≡ emit_all emit trace st

    drained : (fuel : ℕ) (q : Queue) (ss : List Stream) → pop q ≡ none → Trace (suc fuel) q ss
    unfolding merge_loop
    drained fuel q ss e = record {
      trace = [];
      asc = refl;
      complete = λ g. rw (pop_none q e);
      run = λ st. rw (e, merge_loop);
    }

    -- The line on top was the last of its stream.
    last_line :
        (fuel : ℕ) (q r : Queue) (ss : List Stream) (x : Entry)
        → Inv q ss
        → pop q ≡ some (x, r)
        → (get_or ss x.0 closed).rest ≡ []
        → Trace fuel r ss
        → Trace (suc fuel) q ss
    unfolding merge_loop
    last_line fuel q r ss x inv e end t =
        let b : Bytes = (get_or ss x.0 closed).buf in
        let above = t.complete (below (line_num b)) ∙ rest_above q r ss x inv e in
        record {
          trace = b ∷ t.trace;
          asc = rw (above, t.asc);
          complete =
              λ g. omega (arith, t.complete g, items-pop q r x e (weight ss g), ap (sum g) end);
          run = λ st. elim (Option-cases (emit (line_num b) b st)) [
            | inl stops ↦
                rw (e, key q r ss x inv e, stops, merge_loop)
                  (emit_all_stops emit b t.trace st stops)
            | inr (st', goes) ↦
                rw (e, key q r ss x inv e, goes, end, merge_loop)
                  (t.run st' ∙ emit_all_goes emit b t.trace st goes)
          ];
        }

    -- The line on top has a line behind it.
    next_line :
        (fuel : ℕ) (q r : Queue) (ss : List Stream) (x : Entry) (l : Bytes) (ls : List Bytes)
        → Inv q ss
        → pop q ≡ some (x, r)
        → (get_or ss x.0 closed).rest ≡ l ∷ ls
        → Trace fuel (push (x.0, line_num l) r) (put ss x.0 (record { buf = l; rest = ls }))
        → Trace (suc fuel) q ss
    unfolding merge_loop
    next_line fuel q r ss x l ls inv e more t =
        let b : Bytes = (get_or ss x.0 closed).buf in
        let s : Stream = record { buf = l; rest = ls } in
        let weights = λ (g : Bytes → ℕ). pushed_weight q r ss x inv e l ls g in
        let behind = next_ascending q r ss x inv e l ls more in
        let zero_left : sum (weight (put ss x.0 s) (below (line_num b)))
              (items (push (x.0, line_num l) r))
            ≡ 0 =
          omega (arith, weights (below (line_num b)), behind, rest_above q r ss x inv e) in
        let above = t.complete (below (line_num b)) ∙ zero_left in
        record {
          trace = b ∷ t.trace;
          asc = rw (above, t.asc);
          complete = λ g.
              omega
                (arith, t.complete g, weights g, items-pop q r x e (weight ss g), ap (sum g) more);
          run = λ st. elim (Option-cases (emit (line_num b) b st)) [
            | inl stops ↦
                rw (e, key q r ss x inv e, stops, merge_loop)
                  (emit_all_stops emit b t.trace st stops)
            | inr (st', goes) ↦
                rw (e, key q r ss x inv e, goes, more, merge_loop)
                  (t.run st' ∙ emit_all_goes emit b t.trace st goes)
          ];
        }

    pub merge_loop-Trace :
        (fuel : ℕ) (q : Queue) (ss : List Stream) → Inv q ss → waiting ss q < fuel → Trace fuel q ss
    merge_loop-Trace zero q ss inv h = absurd (omega arith)
    merge_loop-Trace (suc fuel) q ss inv h = elim (Option-cases (pop q)) [
      | inl e ↦ drained fuel q ss e
      | inr ((x, r), e) ↦ elim (List-cases (get_or ss x.0 closed).rest) [
        | inl end ↦ last_line fuel q r ss x inv e end (
            merge_loop-Trace fuel r ss (Inv-rest q r ss x inv e)
              (omega (arith, items-pop q r x e (weight ss (λ _. 1)))))
        | inr (l, ls, more) ↦ next_line fuel q r ss x l ls inv e more (
            merge_loop-Trace fuel (push (x.0, line_num l) r)
              (put ss x.0 (record { buf = l; rest = ls })) (Inv-next q r ss x inv e l ls more)
              (omega (
                arith,
                items-pop q r x e (weight ss (λ _. 1)),
                pushed_weight q r ss x inv e l ls (λ _. 1),
                ap (sum (λ _. 1)) more,
              )))
      ]
    ]
