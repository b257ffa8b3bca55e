-- ===== src/Decoder.antt =====
-- src/include/dcd/clevel-decoder.h: the search arcs of the decoder, the lists of what is active, and the
-- choice of the best final state.
pub mod Arc
pub mod Enter
pub mod Final
pub mod Expansion
pub mod Compaction
pub mod State
pub mod Advance
pub mod Hash
