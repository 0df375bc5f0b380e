-- ===== src/ArmGen.antt =====
-- src/arm-codegen.c: from the instructions after register allocation to ARM words.
pub mod Env
pub mod Size
pub mod Soft
pub mod Emit
pub mod Layout
pub mod Plt
pub mod Lower
pub mod Start
mod Tests
