-- ===== src/Riscv/Decoded.antt =====
-- src/riscv.c: the words that the mnemonics encode, read back by `Isa.decode`.
pub mod Registers
pub mod Immediates
pub mod Loads
pub mod Stores
pub mod Branches
pub mod Jumps
