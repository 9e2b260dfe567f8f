-- ===== src/Trial.antt =====
-- src/trial/rules.ts: what the trial recorder and the purchase check accept, over JSON values.
pub mod Pointer
pub mod Order
pub mod Screen
pub mod Fields
pub mod Format
pub mod Input
