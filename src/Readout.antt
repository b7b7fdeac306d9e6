-- ===== src/Readout.antt =====
-- src/categorical_readout.cpp
pub mod Float
pub mod Summary
pub mod Maximum
pub mod Selected
