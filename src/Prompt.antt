-- ===== src/Prompt.antt =====
-- src/gemma4_prompt_renderer.cpp
pub mod Labels
pub mod Sha256
pub mod Render
pub mod Padding
pub mod Slots
