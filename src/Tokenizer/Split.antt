-- ===== src/Tokenizer/Split.antt =====
-- `tokenize` of src/tokenizer.cpp on a text of two parts.
pub mod Find
pub mod Rest
pub mod Boundary
