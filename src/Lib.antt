-- ===== src/Lib.antt =====
-- OpenDcd is a decoder for weighted finite-state transducers. In every frame it advances the tokens
-- inside the active arcs of the search transducer (the transition model), moves the tokens that leave
-- an arc into the search states behind it, records each arrival in a lattice of traceback states, and
-- enters the arcs that leave the active states. Now and then it collects the lattice states that no
-- token reaches. At the end it chooses the best final state and reads the result from its traceback.
--
-- Token models src/include/dcd/token.h: a traceback state with a cost, and the ways to combine two.
-- Lattice models src/include/dcd/lattice.h: State, LatticeArc and Lattice become records over a heap of
-- addresses, and NewState, FreeState, AddArc, CreateStartState, GcClearMarks, GcMark, GcSweep and Clear
-- the functions new_state, free_state, add_arc, create_start_state, gc_clear_marks, gc_mark, gc_sweep and
-- clear_lattice. Lattice.Pool is the allocator, Lattice.Mark and Lattice.Sweep the garbage collection,
-- with `collect` for the part of Gc in src/include/dcd/clevel-decoder.h that runs it; Lattice.Valid is
-- the invariant of the lists.
-- Trans models the loops of src/include/dcd/generic-transition-model.h (Expand is expand_generic) and of
-- src/include/dcd/hmm-transition-model.h (ExpandGeneric is expand_hmm, ExpandLeftToRight is
-- expand_left_to_right). Trans.Relax and Trans.Viterbi hold the abstract view: a sequence of candidates.
-- Decoder models parts of src/include/dcd/clevel-decoder.h: Decoder.Arc the class SearchArc,
-- Decoder.Enter ExpandIntoArcs with the list of active arcs, Decoder.State the class SearchState with the
-- list of active states (Activate, Deactivate and SetToken are activate, deactivate and set_token_from),
-- Decoder.Hash the hash and the pool of the search states (FindSearchState and ClearSearchHash),
-- Decoder.Advance the function ExpandActiveStates, Decoder.Expansion the loop
-- ExpandActiveArcs_ArcExpansion (arc_expansion), ComputeBand and SwapArcs, Decoder.Compaction the list
-- compaction and the whole of ExpandActiveArcs (expand_active_arcs), Decoder.Final the function FindBestState.
-- Text models SplitStringToVector, JoinVectorToString and Trim of src/lib/text-utils.cc,
-- Text.FirstSpace SplitStringOnFirstSpace.
-- Options models the option parser of src/lib/parse-options.cc: Options.Register the functions Register and
-- RegisterSpecific, Options.Assign SetOption with the conversions of values, Options.Args the functions
-- Read, ReadConfigFile, SplitLongArg and GetArg, Options.Escape the quoting of arguments, with a reader of
-- shell words in Options.Escape.Reader that is no part of the program. Options.Run is
-- how a step ends: exit, LOG(FATAL) and a read out of bounds are results.
-- ArcExpand models ArcExpandFstImpl of src/include/dcd/arc-expand-fst.h: AddElement, Expand, Start, Final,
-- NumArcs and FindTypeLabel are add_element, expand_state, find_start, final_weight, num_arcs and
-- find_type_label. ArcExpand.Numbering is the invariant of the two tables, ArcExpand.Outer,
-- ArcExpand.Labels and ArcExpand.Again are about what Expand pushes.
-- HashList models src/include/dcd/hash-list.h and hash-list-inl.h: the constructor, SetSize, New, Delete,
-- Find, Insert and Clear are empty_hash, set_size, new_elem, delete, find, insert and clear_hash, over a
-- memory of elements at addresses. HashList.Chain and HashList.Freed are about linked elements and the
-- freed ones; HashList.Groups holds the invariant, one group of elements for each bucket that is in use,
-- and below it a module for each operation. HashList.More models InsertMore.
-- HLevel models src/include/dcd/hlevel-decoder.h: HLevel itself the class HToken with its reference counts,
-- HLevel.Cutoff the function GetCutoff, HLevel.Frame ProcessEmitting and ClearToks, HLevel.Epsilon
-- ProcessNonemitting, HLevel.Path ReachedFinal and GetBestPath, HLevel.Decode the constructor and Decode.
-- HLevel.Refs is the invariant of the counts and HLevel.Frame.Held that of the decoder: the elements of the
-- hash, and of the list that a loop still has to go through, are what refers to the tokens from outside.
-- Mbr models RemoveEps, NormalizeEps and GetLinearSymbolSequence of src/include/dcd/mbr-decode.h.
-- Statistics models SimpleStatistics of src/include/dcd/search-statistics.h and CountSet of
-- src/include/dcd/utils.h.
-- Prelude holds numbers, lists and the interface of floating-point costs; Examples the theorems at
-- concrete inputs.
--
-- A float is a value of a parameter type with the operations of Prelude.Float, and its order is that of a
-- number; no NaN occurs. Sums need not be exact or monotone. Counters, reference counts too, are unbounded. Options
-- that only make sense as natural numbers (max_active, band) are such, and a topology has a state. The recursion of
-- GcMark runs on fuel for the depth of its call stack: a lattice whose back pointers lower a rank has
-- enough fuel as soon as it exceeds the rank of the root. The loop of SplitStringToVector has fuel for one
-- round more than the string has characters. The loop of GetLinearSymbolSequence has fuel for the states
-- of the path that it follows. The loop of Find has fuel for one round more than addresses have been handed
-- out, and that of Clear for one more than there are buckets, which suffices because the elements of the
-- list and the buckets in use are distinct; the loops of the H-level decoder over a list have the same fuel
-- as Find, and HTokenDelete has fuel for one token more than were made. The fuel of ProcessNonemitting's
-- queue is an argument, since epsilon cycles can keep the queue from becoming empty; no theorem here is
-- about it or about the path of GetBestPath. All other loops are structural.
--
-- Not modelled: the rest of the decoding loop, the output of the lattice as a transducer, the early
-- mission of GcSweep, the destructor of the hash list, logging and dumps, printed usage, other text functions,
-- the other lattices and decoders, the tools, and the libraries that the source calls or copies.
pub mod Prelude
pub mod Token
pub mod Lattice
pub mod Trans
pub mod Decoder
pub mod Text
pub mod Options
pub mod ArcExpand
pub mod Mbr
pub mod HashList
pub mod HLevel
pub mod Statistics
pub mod Examples
