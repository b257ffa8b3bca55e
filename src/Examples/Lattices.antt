-- ===== src/Examples/Lattices.antt =====
-- src/include/dcd/lattice.h at a small lattice, with fixed-point costs: a start state 0, a state 1 with
-- an arc from it, and a state 2 with an arc from 1.
use opendcd.Prelude.{
  ℕ, ◌+◌, ◌<◌, ◌≤◌, ◌≡◌, refl, inl, inr, ◌↔◌, ◌⊎◌, Bool, true, false, none, some, List, [], ◌∷◌,
  ◌++◌, Has, All, pos, negsuc, length, arith, ◌==◌, ◌||◌,
}
use opendcd.Prelude.Float.{fixed, key}
use opendcd.Lattice.{Lattice, State, LatticeOptions, ArcInfo, init_state, preds}
use opendcd.Lattice.Valid.{IsValid}
use opendcd.Lattice.Mark.{gc_mark, gc_marked, set_marked}
use opendcd.Lattice.Mark.Reach.{Falls, FromAny, Closed}
use opendcd.Lattice.Mark.Cycle.{gc_mark-diverges}
use opendcd.Lattice.Pool.{empty_lattice, create_start_state, new_state, add_arc}
use opendcd.Lattice.Pool.Fresh.{new_state-IsValid}
use opendcd.Lattice.Pool.Start.{empty_lattice-IsValid, create_start_state-IsValid}
use opendcd.Lattice.Pool.Join.{add_arc-IsValid, arrive, arrive_best, Arrival, Keeps, IsFrom}
use opendcd.Lattice.Sweep.{gc_sweep, collect, set_index}
use opendcd.Lattice.Sweep.Kept.{kept, marks, SameButIndex}
use opendcd.Lattice.Sweep.Exact.{gc_sweep-IsValid}
use opendcd.Lattice.Sweep.Collect.{collect_exact}

abbrev word : ℕ → ArcInfo ℕ
word n = record { ilabel = pos n; olabel = pos n; weight = 100005 }

abbrev wide : LatticeOptions ℕ
wide = record { gen_lattice = true; lattice_beam = 101000 }

abbrev blank : ℕ → State ℕ
blank a = init_state (negsuc 0) (negsuc 0) (negsuc 0) (negsuc 0) 0

abbrev start : Lattice ℕ
start = (create_start_state (pos 0) (empty_lattice true blank 0)).1

abbrev three : Lattice ℕ
three = (new_state (pos 0) (pos 2) (new_state (pos 0) (pos 1) start).1).1

abbrev one_arc : Lattice ℕ
one_arc = (add_arc 0 1 100010 (word 7) wide three).0

abbrev chain : Lattice ℕ
chain = (add_arc 1 2 100020 (word 8) wide one_arc).0

start-IsValid : IsValid start
start-IsValid = create_start_state-IsValid (pos 0) _ (empty_lattice-IsValid true blank 0)

three-IsValid : IsValid three
three-IsValid =
    (new_state-IsValid (pos 0) (pos 2) _
      (new_state-IsValid (pos 0) (pos 1) start start-IsValid).0).0

new_state-IsValid_example :
    IsValid (new_state (pos 0) (pos 1) start).1
    × (¬ Has (new_state (pos 0) (pos 1) start).0 start.used_list)
    × ((new_state (pos 0) (pos 1) start).1.used_list
        ≡ start.used_list ++ (new_state (pos 0) (pos 1) start).0 ∷ [])
    × ((b : ℕ) → Has b start.used_list → (new_state (pos 0) (pos 1) start).1.cell b ≡ start.cell b)
new_state-IsValid_example = new_state-IsValid (pos 0) (pos 1) start start-IsValid

used-three : three.used_list ≡ 0 ∷ 1 ∷ 2 ∷ []
unfolding new_state create_start_state empty_lattice
used-three = refl

add_arc-IsValid_example : IsValid one_arc
add_arc-IsValid_example =
    add_arc-IsValid 0 1 100010 (word 7) wide three three-IsValid (rw used-three (inl refl))

used-one_arc : one_arc.used_list ≡ 0 ∷ 1 ∷ 2 ∷ []
unfolding new_state create_start_state empty_lattice add_arc
used-one_arc = refl

preds-one_arc :
    (preds (one_arc.cell 0) ≡ [])
    × (preds (one_arc.cell 1) ≡ 0 ∷ 0 ∷ [])
    × (preds (one_arc.cell 2) ≡ [])
unfolding new_state create_start_state empty_lattice add_arc preds
preds-one_arc = (refl, refl, refl)

Falls-one_arc : Falls (λ a. Has a one_arc.used_list) (λ a. preds (one_arc.cell a)) (λ (a : ℕ). a)
Falls-one_arc b p hb hp = elim (rw used-one_arc at hb) [
  | inl e ↦ absurd (rw (e, preds-one_arc.0) at hp)
  | inr (inl e) ↦ let h : Has p (0 ∷ 0 ∷ []) = rw (e, preds-one_arc.1) at hp in ground arith
  | inr (inr (inl e)) ↦ absurd (rw (e, preds-one_arc.2) at hp)
  | inr (inr (inr e)) ↦ elim e [ ]
]

roots-one_arc : (r : ℕ) → Has r (1 ∷ []) → Has r one_arc.used_list × (r < 5)
roots-one_arc r h = rw used-one_arc (ground arith)

collect_exact_example :
    (l' : Lattice ℕ) × (n : ℕ) × (collect 5 (1 ∷ []) one_arc ≡ some (l', n))
    × IsValid l'
    × ((a : ℕ) → Has a l'.used_list ↔ FromAny (λ b. preds (one_arc.cell b)) (1 ∷ []) a)
    × ((a : ℕ)
        → set_marked 0 (set_index (pos 0) (l'.cell a))
          ≡ set_marked 0 (set_index (pos 0) (one_arc.cell a)))
    × (n + length l'.used_list ≡ length one_arc.used_list)
collect_exact_example =
    collect_exact one_arc (λ a. a) 5 (1 ∷ []) add_arc-IsValid_example Falls-one_arc roots-one_arc

-- States 1 and 2 with arcs both ways, as epsilon arcs between two search states make them: each
-- AddArc is within the lattice beam.
abbrev looped : Lattice ℕ
looped = (add_arc 2 1 100030 (word 9) wide chain).0

abbrev on_loop : ℕ → Bool
on_loop a = a == 1 || a == 2

preds-looped : (preds (looped.cell 1) ≡ 0 ∷ 0 ∷ 2 ∷ []) × (preds (looped.cell 2) ≡ 1 ∷ 1 ∷ [])
unfolding new_state create_start_state empty_lattice add_arc preds
preds-looped = (refl, refl)

marks-looped : (gc_marked (looped.cell 1) ≡ false) × (gc_marked (looped.cell 2) ≡ false)
unfolding new_state create_start_state empty_lattice add_arc
marks-looped = (refl, refl)

stuck-looped :
    (a : ℕ)
    → on_loop a ≡ true
    → (gc_marked (looped.cell a) ≡ false)
      × (p : ℕ) × Has p (preds (looped.cell a))
      × (on_loop p ≡ true)
stuck-looped a h = elim (let c : (a ≡ 1) ⊎ (a ≡ 2) = ground arith in c) [
  | inl e ↦ rw e (marks-looped.0, 2, rw preds-looped.0 (inr (inr (inl refl))), refl)
  | inr e ↦ rw e (marks-looped.1, 1, rw preds-looped.1 (inl refl), refl)
]

gc_mark-diverges_example : gc_mark 1000 looped.cell 2 ≡ none
gc_mark-diverges_example = gc_mark-diverges on_loop looped.cell stuck-looped 1000 2 refl

Closed-three : Closed (λ a. Has a three.used_list) (λ a. preds (three.cell a)) three.cell
unfolding new_state create_start_state empty_lattice preds
Closed-three b p h m q = ground arith

gc_sweep-IsValid_example :
    IsValid (gc_sweep three).0
    × ((gc_sweep three).0.used_list ≡ kept (marks three) three.used_list)
    × ((gc_sweep three).1 + length (gc_sweep three).0.used_list ≡ length three.used_list)
    × SameButIndex (gc_sweep three).0 three
gc_sweep-IsValid_example = gc_sweep-IsValid three three-IsValid Closed-three

abbrev arrivals : List (Arrival ℕ)
arrivals =
    record { src = 0; src_cost = 100000; cost = 100030; arc = word 3 }
    ∷ record { src = 1; src_cost = 100010; cost = 100020; arc = word 4 }
    ∷ []

arrive_best_example :
    (Keeps (arrive wide (three.cell 2) arrivals) (three.cell 2)
      ⊎ IsFrom (arrive wide (three.cell 2) arrivals) arrivals)
    × (key (arrive wide (three.cell 2) arrivals).forwards_cost ≤ key (three.cell 2).forwards_cost)
    × All (λ x. key (arrive wide (three.cell 2) arrivals).forwards_cost ≤ key x.cost) arrivals
arrive_best_example = arrive_best wide (three.cell 2) arrivals
