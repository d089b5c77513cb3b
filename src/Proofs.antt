-- ===== src/Proofs.antt =====
-- The proofs that join several parts.
pub mod Bounded
pub mod Endless
pub mod Exchange
pub mod Level2
pub mod Answers
pub mod Duplicates
