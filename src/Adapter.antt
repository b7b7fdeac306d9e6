-- ===== src/Adapter.antt =====
-- src/systemone_adapter.cpp
pub mod Base64
pub mod Request
pub mod Valid
pub mod Response
