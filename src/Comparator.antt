-- ===== src/Comparator.antt =====
-- AGENT_D/compare_commitlogs.py: the comparison of an RTL commit log with a golden ISS log.
pub mod Kinds
pub mod Config
pub mod Entry
pub mod Issue
pub mod Json
pub mod Hex
pub mod Names
pub mod Record
pub mod Window
pub mod Steps
pub mod Fields
pub mod Run
pub mod Reader
mod Samples
mod Witnesses
