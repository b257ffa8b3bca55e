-- ===== src/Examples.antt =====
-- The theorems at concrete inputs, and tests by evaluation.
mod Tokens
mod Lattices
mod Trans
mod Decoder
mod States
mod Text
mod Hashes
mod Options
mod Expansions
mod Rounds
mod Frames
mod Sequences
mod Hashing
mod Beams
