-- ===== src/Names.antt =====
-- src/member-names.ts: names and method values as a reader that ignores case could take them.
pub mod Fold
pub mod Method
pub mod Scan
pub mod Readers
