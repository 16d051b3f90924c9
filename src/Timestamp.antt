-- ===== src/Timestamp.antt =====
-- The children hold the code; what they prove is in their own children.
pub mod Product
pub mod Conversion
pub mod Rate
