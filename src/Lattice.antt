-- ===== src/Lattice.antt =====
-- src/include/dcd/lattice.h: the lattice of traceback states and its allocator.
-- A `State*` is an address, null is `none`, and the heap is a function from addresses to states.
-- `fresh` is the address that the next `new State` returns. A state that is deleted, and not kept
-- in the free list, stays in the heap under an address that no list holds. `dur_` of an arc is left
-- out: the constructor with arguments does not set it, and nothing reads it.
pub mod Mark
pub mod Pool
pub mod Sweep
pub mod Valid
use opendcd.Prelude.{
  ℕ, zero, suc, ◌+◌, ◌-◌, Bool, true, false, not, Option, none, some, List, [], ◌∷◌, ◌++◌, map, ℤ,
  pos, negsuc, update, length, ltb, ◌==◌, ◌&&◌, if◌then◌else◌,
}
use opendcd.Prelude.Float.{Float, add, sub, lt, max_cost, zero_cost}

pub record LatticeArc (F : Type 0) : Type 0 where
  pub prevstate : Option ℕ
  pub ilabel : ℤ
  pub olabel : ℤ
  pub am_weight : F
  pub lm_weight : F
  pub dur_weight : F

pub record State (F : Type 0) : Type 0 where
  pub state : ℤ
  pub time : ℤ
  pub id : ℤ
  pub marked : ℕ
  pub index : ℤ
  pub forwards_cost : F
  pub backwards_cost : F
  pub best_arc : LatticeArc F
  pub arcs : List (LatticeArc F)

-- The options of search-opts.h that the lattice reads.
pub record LatticeOptions (F : Type 0) : Type 0 where
  pub gen_lattice : Bool
  pub lattice_beam : F

-- What `AddArc` reads of a search arc.
pub record ArcInfo (F : Type 0) : Type 0 where
  pub ilabel : ℤ
  pub olabel : ℤ
  pub weight : F

pub record Lattice (F : Type 0) : Type 0 where
  pub cell : ℕ → State F
  pub fresh : ℕ
  pub used_list : List ℕ
  pub free_list : List ℕ
  pub next_id : ℕ
  pub num_allocs : ℕ
  pub num_frees : ℕ
  pub use_pool : Bool

-- Puts a pointer in front of a list, unless it is null.
unfoldable pub link : Option ℕ → List ℕ → List ℕ
link none ps = ps
link (some p) ps = p ∷ ps

-- The states that GcMark goes on to: the best predecessor, then the sources of the arcs. The source follows
-- the pointer of such an arc without a test for null; AddArc gives every arc a source.
unfoldable pub sources : {F : Type 0} → List (LatticeArc F) → List ℕ
sources [] = []
sources (x ∷ xs) = link x.prevstate (sources xs)

unfoldable pub preds : {F : Type 0} → State F → List ℕ
unfolding sources link
preds s = link s.best_arc.prevstate (sources s.arcs)

module _ {F : Type 0} ⦃f : Float F⦄ where
  -- LatticeArc::Clear
  unfoldable pub clear_arc : LatticeArc F
  clear_arc = record {
    prevstate = none;
    ilabel = negsuc 0;
    olabel = negsuc 0;
    am_weight = max_cost;
    lm_weight = max_cost;
    dur_weight = max_cost;
  }

  -- State::Init after State::Clear, which write every field
  unfoldable pub init_state : ℤ → ℤ → ℤ → ℤ → F → State F
  unfolding clear_arc
  init_state time state id index forwards_cost = record {
    state = state;
    time = time;
    id = id;
    marked = 0;
    index = index;
    forwards_cost = forwards_cost;
    backwards_cost = max_cost;
    best_arc = clear_arc;
    arcs = [];
  }

  -- State::PrevState
  abbrev pub prev_state : State F → Option ℕ
  prev_state s = s.best_arc.prevstate

  -- State::IsStart
  unfoldable pub is_start : State F → Bool
  is_start s = elim (prev_state s) [ none ↦ true | some _ ↦ false ]

  -- State::AddArc
  unfoldable pub add_arc_state :
      ℕ → F → F → ArcInfo F → LatticeOptions F → State F → State F × (F × F)
  unfolding is_start
  add_arc_state src src_cost cost arc opts s =
      let arc_cost = sub cost src_cost in
      let am_cost = sub arc_cost arc.weight in
      let lattice_arc : LatticeArc F = record {
        prevstate = some src;
        ilabel = arc.ilabel;
        olabel = arc.olabel;
        am_weight = am_cost;
        lm_weight = arc.weight;
        dur_weight = zero_cost;
      } in
      let s' : State F =
        if lt cost s.forwards_cost
        then record s { best_arc = lattice_arc; forwards_cost = cost }
        else s in
      let s'' : State F =
        if opts.gen_lattice && not (is_start s') && lt cost (add s'.forwards_cost opts.lattice_beam)
        then record s' { arcs = s'.arcs ++ lattice_arc ∷ [] }
        else s' in
      (s'', (cost, s''.forwards_cost))
