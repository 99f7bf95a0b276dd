-- ===== src/Sequence.antt =====
-- Sequencing of compute operations (sequence.cc, sequence.h).
pub mod Graph
pub mod Program
pub mod Traversal
pub mod Default
pub mod Analysis
