-- ===== src/Nathole.antt =====
-- src/pkg/nathole: how two peers behind NATs are told to make a hole.
pub mod Classify
pub mod Behaviors
pub mod Records
pub mod Analyzer
pub mod Sessions
pub mod Decisions
mod Examples
