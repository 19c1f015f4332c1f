-- ===== src/IndexOrder.antt =====
-- src/solver/index_order.rs: a user's order for an index, made of updates that the solver engages in
-- the order of arrival and that a cancellation takes back from the last one.
pub mod Update
pub mod Matching
pub mod Order
pub mod Totals
pub mod Engaged
pub mod Backwards
pub mod Cancelled
pub mod Settled
pub mod Withdrawn
mod Tests
