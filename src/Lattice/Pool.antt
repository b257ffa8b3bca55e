-- ===== src/Lattice/Pool.antt =====
-- src/include/dcd/lattice.h: creating, freeing and joining lattice states. The free list is a stack
-- with its back, where push_back and pop_back work, at the head of the list.
pub mod Fresh
pub mod Start
pub mod Join
use opendcd.Prelude.{
  ℕ, ◌+◌, Bool, List, [], ◌∷◌, ◌++◌, ℤ, pos, negsuc, update, length, if◌then◌else◌,
}
use opendcd.Prelude.Float.{Float, max_cost, zero_cost}
use opendcd.Lattice.{Lattice, State, LatticeOptions, ArcInfo, init_state, add_arc_state}

module _ {F : Type 0} where
  -- Lattice::Lattice(opts). `fresh` is the first address that `new` returns.
  unfoldable pub empty_lattice : Bool → (ℕ → State F) → ℕ → Lattice F
  empty_lattice use_pool cell fresh = record {
    cell = cell;
    fresh = fresh;
    used_list = [];
    free_list = [];
    next_id = 0;
    num_allocs = 0;
    num_frees = 0;
    use_pool = use_pool;
  }

  -- `new State`
  unfoldable pub new_cell : Lattice F → ℕ × Lattice F
  new_cell l = (l.fresh, record l { fresh = l.fresh + 1 })

  -- NewState takes the back of a free list that is not empty.
  unfoldable pub reuse_cell : List ℕ → Lattice F → ℕ × Lattice F
  unfolding new_cell
  reuse_cell [] l = new_cell l
  reuse_cell (a ∷ rest) l = (a, record l { free_list = rest })

  unfoldable pub take_cell : Lattice F → ℕ × Lattice F
  unfolding new_cell reuse_cell
  take_cell l = if l.use_pool then reuse_cell l.free_list l else new_cell l

  -- Lattice::FreeState
  unfoldable pub free_state : ℕ → Lattice F → Lattice F
  free_state a l = record l {
    free_list = if l.use_pool then a ∷ l.free_list else l.free_list;
    num_frees = l.num_frees + 1;
  }

module _ {F : Type 0} ⦃f : Float F⦄ where
  -- NewState, from the call of Init on
  unfoldable pub enter_state : ℤ → ℤ → ℕ → Lattice F → Lattice F
  unfolding init_state
  enter_state time state a l = record l {
    cell =
        update l.cell a (init_state time state (pos l.next_id) (pos (length l.used_list)) max_cost);
    next_id = l.next_id + 1;
    used_list = l.used_list ++ a ∷ [];
    num_allocs = l.num_allocs + 1;
  }

  -- Lattice::NewState, and Lattice::AddState, which calls it
  unfoldable pub new_state : ℤ → ℤ → Lattice F → ℕ × Lattice F
  unfolding take_cell enter_state
  new_state time state l = let (a, l') = take_cell l in (a, enter_state time state a l')

  -- Lattice::CreateStartState
  unfoldable pub create_start_state : ℤ → Lattice F → ℕ × Lattice F
  unfolding new_state
  create_start_state state l =
      let (a, l') = new_state (negsuc 0) state l in
      (a, record l' { cell = update l'.cell a (record (l'.cell a) { forwards_cost = zero_cost }) })

  -- Lattice::AddArc
  unfoldable pub add_arc :
      ℕ → ℕ → F → ArcInfo F → LatticeOptions F → Lattice F → Lattice F × (F × F)
  unfolding add_arc_state
  add_arc src dest cost arc opts l =
      let (s, costs) = add_arc_state src (l.cell src).forwards_cost cost arc opts (l.cell dest) in
      (record l { cell = update l.cell dest s }, costs)
