-- ===== src/FixServer.antt =====
-- libs/axum-fix-server: the server that the users' requests come in by.
pub mod SeqNum
pub mod InOrder
pub mod RatePlugin
pub mod RateLimit
pub mod Served
pub mod UserLimits
mod Tests
mod RateTests
