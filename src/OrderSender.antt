-- ===== src/OrderSender.antt =====
-- libs/symm-core/src/order_sender: from orders sent to lots held.
pub mod Position
pub mod Tracker
pub mod Asset
pub mod Inventory
mod Tests
