-- ===== src/Prefill.antt =====
-- src/prefill_engine.cpp
pub mod Schedule
pub mod Parts
pub mod Columns
pub mod Ids
pub mod Covered
