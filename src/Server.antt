-- ===== src/Server.antt =====
-- src/server.cc: `server`, its tables and their use.
pub mod State
pub mod Registry
pub mod Tables
pub mod Made
pub mod Registered
pub mod Added
pub mod Metrics
pub mod Routing
