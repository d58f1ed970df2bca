-- ===== src/Temporal.antt =====
-- AGENT_H/temporal_checker.py: monitors of temporal properties over the paired commit logs.
pub mod Record
pub mod Monitors
pub mod Checker
pub mod Rule
pub mod CsrReads
pub mod Limits
pub mod Silence
pub mod Verdicts
pub mod Past
mod Samples
