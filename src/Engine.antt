-- ===== src/Engine.antt =====
-- src/gemma4_decision_engine.cpp
pub mod Validate
pub mod Evaluate
pub mod Scores
pub mod Checks
pub mod Sound
pub mod Around
pub mod Estimate
pub mod Preprocessed
