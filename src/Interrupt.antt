-- ===== src/Interrupt.antt =====
-- AGENT_H/interrupt_verifier.py: the golden interrupt controllers and the check of a trace of events
-- against them.
pub mod Arbitration
pub mod Sources
pub mod Plic
pub mod Clic
pub mod Verifier
pub mod Ranking
pub mod Trace
pub mod Silence
pub mod Conformance
mod Samples
