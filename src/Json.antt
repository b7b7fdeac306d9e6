-- ===== src/Json.antt =====
-- src/json.cpp
pub mod Value
pub mod Parser
pub mod Printer
pub mod WellFormed
pub mod Sound
pub mod Number
pub mod Text
pub mod Returns
pub mod Render
pub mod RoundTrip
