-- ===== src/Tokenizer.antt =====
-- src/tokenizer.cpp
pub mod Vocabulary
pub mod Merge
pub mod Segments
pub mod Linked
pub mod Spelling
pub mod Split
pub mod AnswerLabel
pub mod Load
