-- ===== src/Voe.antt =====
-- The Verification Operating Environment (voe/): workers gather evidence for obligations, a bus
-- merges it into one state of knowledge, and a ledger limits what they spend.
pub mod Kernel
pub mod Bus
pub mod Board
pub mod Workers
pub mod Environment
