-- ===== src/Limit.antt =====
-- libs/symm-core/src/core/limit.rs: sliding-window rate limits.
pub mod Weights
pub mod Single
pub mod Multi
pub mod Window
pub mod Safety
pub mod Waiting
mod Tests
