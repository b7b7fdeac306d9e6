-- ===== src/Server.antt =====
-- tools/branchscore_server.cpp
pub mod Authorization
pub mod Context
pub mod Intake
pub mod Bounds
pub mod Received
pub mod Gate
pub mod Replies
pub mod Handle
pub mod LogId
pub mod Budget
pub mod Answers
pub mod Startup
pub mod Guarded
