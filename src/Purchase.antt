-- ===== src/Purchase.antt =====
-- src/purchase: the check of an order against a signed instruction.
pub mod Time
pub mod Jcs
pub mod Card
pub mod M6
pub mod Rows
pub mod Limits
pub mod Judge
pub mod Open
pub mod Write
pub mod Gate
pub mod Rebuild
