-- ===== src/Examples.antt =====
-- Concrete stores, tables and floats, and the theorems applied to them.
pub mod Stores
pub mod Stock
pub mod Messages
pub mod Breaker
pub mod Trade
pub mod Score
pub mod Queues
pub mod Reservations
pub mod Limits
pub mod Workers
pub mod Admin
pub mod Signing
pub mod Life
pub mod Reports
