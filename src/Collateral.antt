-- ===== src/Collateral.antt =====
-- src/collateral and libs/index-core/src/collateral: the collateral that users pay in, by lots, and
-- its way over bridges.
pub mod Side
pub mod Confirm
pub mod Totals
pub mod Spent
pub mod Account
pub mod Accounted
pub mod Router
pub mod Journey
pub mod Manager
pub mod Managed
pub mod Answered
pub mod Covered
pub mod Replaced
mod Tests
mod RouteTests
