-- ===== src/Lattice/Sweep/Collect.antt =====
-- src/include/dcd/lattice.h, src/include/dcd/clevel-decoder.h: a whole collection, and Clear, which
-- sweeps with no state marked.
use opendcd.Prelude.{
  ℕ, ◌+◌, ◌<◌, ◌≡◌, refl, ap, ◌∙◌, inl, inr, ◌↔◌, true, some, List, [], ◌∷◌, Has, All-change,
  negsuc, pos, update, length, arith, ==_iff,
}
use opendcd.Lattice.{Lattice, State, preds}
use opendcd.Lattice.Mark.{Cells, gc_marked, set_marked, gc_mark, ◌>>=◌}
use opendcd.Lattice.Mark.Reach.{
  FromAny, IsMarked, Closed, Falls, Marks-gc_mark, Marks-mark_all, Closed-Marks, FromAny-snoc,
  Has-FromAny, Back-inside,
}
use opendcd.Lattice.Valid.{IsValid, Indexed-change}
use opendcd.Lattice.Sweep.{set_index, clear_cells, gc_sweep, collect, clear_lattice}
use opendcd.Lattice.Sweep.Kept.{marks, next_id-sweep_loop}
use opendcd.Lattice.Sweep.Exact.{gc_sweep-IsValid, Has-kept, kept-eq-nil}

module _ {F : Type 0} where
  -- Marking writes marks and nothing else of a state.
  abbrev pub SameButMark : Cells F → Cells F → Type 0
  SameButMark c' c = (b : ℕ) → set_marked 0 (c' b) ≡ set_marked 0 (c b)

  preds-SameButMark : (c c' : Cells F) → SameButMark c' c → (b : ℕ) → preds (c' b) ≡ preds (c b)
  unfolding preds
  preds-SameButMark c c' same b = ap (λ (s : State F). unfold preds in preds s) (same b)

  IsValid-SameButMark :
      (l : Lattice F) (c : Cells F) (n : ℕ)
      → SameButMark c l.cell
      → IsValid l
      → IsValid (record l { cell = c; next_id = n })
  IsValid-SameButMark l c n same v =
      let index : (b : ℕ) → (c b).index ≡ (l.cell b).index =
        λ b. ap (λ (s : State F). s.index) (same b) in
      record {
        indexed = Indexed-change l.cell c 0 l.used_list (λ b _. index b) v.indexed;
        freed =
            All-change (λ b. (l.cell b).index ≡ negsuc 0) (λ b. (c b).index ≡ negsuc 0) l.free_list
              (λ b _ e. index b ∙ e) v.freed;
        free_nodup = v.free_nodup;
        used_in_heap = v.used_in_heap;
        free_in_heap = v.free_in_heap;
        balanced = v.balanced;
        linked = λ a p ha hp. v.linked a p ha (rw (preds-SameButMark l.cell c same a) at hp);
      }

  clear_cells_lem :
      (c : Cells F) (us : List ℕ)
      → SameButMark (clear_cells c us) c
        × ((b : ℕ) → gc_marked (clear_cells c us b) ≡ true → gc_marked (c b) ≡ true × (¬ Has b us))
  unfolding clear_cells
  clear_cells_lem c [] = (λ b. refl, λ b m. (m, λ h. h))
  clear_cells_lem c (a ∷ us) =
      let c' = update c a (set_marked 0 (c a)) in
      let (same, gone) = clear_cells_lem c' us in
      (
        (λ b. same b ∙ ground (arith, ==_iff a b)),
        λ b m. let (k, n) = gone b m in ground (arith, ==_iff a b),
      )

  -- After GcClearMarks no state in use is marked.
  cleared :
      (l : Lattice F) (b : ℕ) → Has b l.used_list → ¬ IsMarked (clear_cells l.cell l.used_list) b
  cleared l b h m = ((clear_cells_lem l.cell l.used_list).1 b m).1 h

  -- The sweep of Clear: it frees every state that was in use.
  swept :
      (l : Lattice F)
      → IsValid l
      → let l' : Lattice F =
          (gc_sweep (record l { cell = clear_cells l.cell l.used_list; next_id = 0 })).0 in
        IsValid l' × (l'.used_list ≡ []) × (l'.next_id ≡ 0) × (l'.num_frees ≡ l'.num_allocs)
  swept l v =
      let c = clear_cells l.cell l.used_list in
      let l0 : Lattice F = record l { cell = c; next_id = 0 } in
      let v0 = IsValid-SameButMark l c 0 (clear_cells_lem l.cell l.used_list).0 v in
      let (v1, used, _, _) = gc_sweep-IsValid l0 v0 (λ b p h m _. absurd (cleared l b h m)) in
      let nil = used ∙ kept-eq-nil (marks l0) l.used_list (cleared l) in
      (
        v1,
        nil,
        unfold gc_sweep in next_id-sweep_loop (record l0 { used_list = [] }) l.used_list,
        omega (arith, v1.balanced, ap (λ (xs : List ℕ). length xs) nil),
      )

  empty-IsValid :
      (l : Lattice F)
      → IsValid l
      → l.used_list ≡ []
      → IsValid (record l { num_frees = 0; num_allocs = 0 })
  empty-IsValid l v e = record {
    indexed = v.indexed;
    freed = v.freed;
    free_nodup = v.free_nodup;
    used_in_heap = v.used_in_heap;
    free_in_heap = v.free_in_heap;
    balanced = rw e;
    linked = v.linked;
  }

  -- Clear of a valid lattice passes the check of its counters, and leaves a valid lattice with no
  -- state in use and its counters at zero.
  pub clear_lattice_resets :
      (l : Lattice F)
      → IsValid l
      → (l' : Lattice F) × (clear_lattice l ≡ some l')
        × IsValid l'
        × (l'.used_list ≡ [])
        × (l'.next_id ≡ 0)
        × (l'.num_allocs ≡ 0)
        × (l'.num_frees ≡ 0)
  unfolding clear_lattice
  clear_lattice_resets l v =
      let l1 : Lattice F =
        (gc_sweep (record l { cell = clear_cells l.cell l.used_list; next_id = 0 })).0 in
      let (v1, nil, id, even) = swept l v in
      (
        record l1 { num_frees = 0; num_allocs = 0 },
        rw ((==_iff l1.num_frees l1.num_allocs).1 even) refl,
        empty-IsValid l1 v1 nil,
        nil,
        id,
        refl,
        refl,
      )

  -- Gc of a valid lattice without cycles returns a valid one, when the fuel exceeds the rank of each
  -- root and the roots are in use: a state is in use afterwards exactly if a root reaches it along
  -- the back pointers. The states themselves keep all but marks and indexes, and the count of the
  -- reclaimed states is right.
  pub collect_exact :
      (l : Lattice F) (rank : ℕ → ℕ) (fuel : ℕ) (roots : List ℕ)
      → IsValid l
      → Falls (λ a. Has a l.used_list) (λ a. preds (l.cell a)) rank
      → ((r : ℕ) → Has r roots → Has r l.used_list × (rank r < fuel))
      → (l' : Lattice F) × (n : ℕ) × (collect fuel roots l ≡ some (l', n))
        × IsValid l'
        × ((a : ℕ) → Has a l'.used_list ↔ FromAny (λ b. preds (l.cell b)) roots a)
        × ((a : ℕ)
            → set_marked 0 (set_index (pos 0) (l'.cell a))
              ≡ set_marked 0 (set_index (pos 0) (l.cell a)))
        × (n + length l'.used_list ≡ length l.used_list)
  unfolding collect
  collect_exact l rank fuel roots v falls at =
      let g : ℕ → List ℕ = λ a. preds (l.cell a) in
      let D : ℕ → Type 0 = λ a. Has a l.used_list in
      let c0 = clear_cells l.cell l.used_list in
      let same0 = (clear_cells_lem l.cell l.used_list).0 in
      let closed0 : Closed D g c0 = λ b p h m _. absurd (cleared l b h m) in
      let (c, e, m) =
        Marks-mark_all D g v.linked (gc_mark fuel) roots
          (λ p h. Marks-gc_mark D g v.linked rank falls fuel p (at p h).0 (at p h).1) c0
          (λ b _. preds-SameButMark l.cell c0 same0 b) closed0 in
      let same : SameButMark c l.cell = λ b. m.same b ∙ same0 b in
      let l1 : Lattice F = record l { cell = c } in
      let v1 = IsValid-SameButMark l c l.next_id same v in
      let closed : Closed D g c =
        Closed-Marks (λ b p r h. FromAny-snoc g roots b p r h) closed0 m in
      let (v2, used, count, same2) =
        gc_sweep-IsValid l1 v1
          (λ b p h k q. closed b p h k (rw (preds-SameButMark l.cell c same b) at q)) in
      (
        (gc_sweep l1).0,
        (gc_sweep l1).1,
        rw (e, ◌>>=◌) refl,
        v2,
        λ a. (
          λ h.
              let (old, k) = (Has-kept (marks l1) l.used_list a).0 (rw used at h) in
              elim (m.sound a k) [ inl before ↦ absurd (cleared l a old before) | inr r ↦ r ],
          λ r.
              let (root, h, path) = Has-FromAny g roots a r in
              rw used (
                (Has-kept (marks l1) l.used_list a).1
                  (Back-inside v.linked (at root h).0 path, m.full a r)),
        ),
        λ a.
            ap (λ (s : State F). set_marked 0 s) (same2 a)
            ∙ ap (λ (s : State F). set_index (pos 0) s) (same a),
        count,
      )
