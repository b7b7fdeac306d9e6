-- ===== src/Cache.antt =====
-- src/state_cache.cpp
pub mod State
pub mod Layers
pub mod Created
