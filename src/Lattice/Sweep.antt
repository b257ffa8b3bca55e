-- ===== src/Lattice/Sweep.antt =====
-- src/include/dcd/lattice.h: GcClearMarks, GcSweep and Clear, and the collection that Gc of
-- src/include/dcd/clevel-decoder.h and GetLattice run with them.
pub mod Loop
pub mod Kept
pub mod Exact
pub mod Collect
use opendcd.Prelude.{
  ℕ, ◌+◌, ◌-◌, Bool, Option, none, some, List, [], ◌∷◌, ◌++◌, ℤ, pos, negsuc, update, length, ◌==◌,
  if◌then◌else◌,
}
use opendcd.Lattice.{Lattice, State}
use opendcd.Lattice.Mark.{Cells, gc_marked, set_marked, mark_all, gc_mark, ◌>>=◌}
use opendcd.Lattice.Pool.{free_state}

module _ {F : Type 0} where
  -- GcClearMark at each address of the list
  unfoldable pub clear_cells : Cells F → List ℕ → Cells F
  clear_cells c [] = c
  clear_cells c (a ∷ rest) = clear_cells (update c a (set_marked 0 (c a))) rest

  -- Lattice::GcClearMarks
  unfoldable pub gc_clear_marks : Lattice F → Lattice F
  unfolding clear_cells
  gc_clear_marks l = record l { cell = clear_cells l.cell l.used_list }

  -- State::SetIndex
  abbrev pub set_index : ℤ → State F → State F
  set_index i s = record s { index = i }

  -- One round of the loop of GcSweep. `used_list` holds the entries kept so far, so that its
  -- length is `j`: the loop writes them over the front of the vector, never ahead of its reading.
  unfoldable pub sweep_step : Lattice F → ℕ → Lattice F
  unfolding free_state
  sweep_step l a =
      if gc_marked (l.cell a)
      then record l {
        cell = update l.cell a (set_index (pos (length l.used_list)) (l.cell a));
        used_list = l.used_list ++ a ∷ [];
      }
      else free_state a (record l { cell = update l.cell a (set_index (negsuc 0) (l.cell a)) })

  unfoldable pub sweep_loop : Lattice F → List ℕ → Lattice F
  sweep_loop l [] = l
  sweep_loop l (a ∷ rest) = sweep_loop (sweep_step l a) rest

  -- Lattice::GcSweep with no early mission; the count of reclaimed states comes back too
  unfoldable pub gc_sweep : Lattice F → Lattice F × ℕ
  gc_sweep l =
      let l' = sweep_loop (record l { used_list = [] }) l.used_list in
      (l', length l.used_list - length l'.used_list)

  -- Gc, less its logging and dumping: the roots are the lattice states of the active tokens in the
  -- active arcs. `fuel` bounds the depth of GcMark's recursion.
  unfoldable pub collect : ℕ → List ℕ → Lattice F → Option (Lattice F × ℕ)
  unfolding gc_clear_marks
  collect fuel roots l = mark_all (gc_mark fuel) (gc_clear_marks l).cell roots >>= λ c.
      some (gc_sweep (record l { cell = c }))

  -- Lattice::Clear; `none` is the fatal error of the allocator's check
  unfoldable pub clear_lattice : Lattice F → Option (Lattice F)
  unfolding gc_clear_marks
  clear_lattice l =
      let l' : Lattice F = (gc_sweep (gc_clear_marks (record l { next_id = 0 }))).0 in
      if l'.num_frees == l'.num_allocs
      then some (record l' { num_frees = 0; num_allocs = 0 })
      else none
