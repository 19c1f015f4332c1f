-- ===== src/Solver.antt =====
-- src/solver/solver_order: what the solver keeps of index orders.
pub mod Orders
pub mod Queued
pub mod Erased
pub mod Preserved
pub mod Runs
pub mod Blocked
pub mod Starved
pub mod Lots
pub mod Compress
pub mod Compressed
pub mod Gathered
pub mod OneEach
pub mod PerLot
mod Tests
