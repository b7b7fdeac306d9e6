-- ===== src/Tokenizer/Linked.antt =====
-- The invariant of the symbols in `tokenize_segment` of src/tokenizer.cpp.
pub mod Store
pub mod Links
pub mod Start
pub mod Join
pub mod Queue
