-- ===== src/Codegen.antt =====
-- src/riscv-codegen.c: from the instructions after register allocation to RISC-V words.
pub mod Size
pub mod Soft
pub mod Emit
pub mod Layout
pub mod Flatten
pub mod Constant
pub mod Start
mod Tests
