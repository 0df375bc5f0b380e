-- ===== src/Peephole.antt =====
-- src/peephole.c: the peephole optimiser over the instructions of a block.
-- A pattern is a function of its own, which gives the instructions that take the places of those it
-- is handed; a C function that tries patterns one after the other is their chain by `orelse`.
pub mod Rule
pub mod Fusion
pub mod Simplify
pub mod Strength
pub mod Bitwise
pub mod Moves
pub mod Memory
pub mod Laws
pub mod Faults
pub mod Driver
mod Tests
