-- ===== src/Loops.antt =====
-- Loop nests of operations (loop_nest.cc, loop_nest.h).
pub mod State
pub mod Nest
pub mod Space
pub mod Mapped
pub mod Fusion
