-- ===== src/Image.antt =====
-- src/image_preprocessor.cpp
pub mod Inspect
pub mod Prepare
pub mod Counted
