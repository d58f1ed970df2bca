-- ===== src/Coherence.antt =====
-- AGENT_H/coherence_verifier.py: the loads and stores of several cores, checked for coherence.
pub mod Order
pub mod State
pub mod Verifier
pub mod Trace
pub mod Growth
pub mod Counting
pub mod SingleWriter
pub mod Index
pub mod Tracking
pub mod Seen
pub mod Loads
mod Samples
