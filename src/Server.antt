-- ===== src/Server.antt =====
-- The HTTP servers of internal/server.
pub mod Dispatch
pub mod EventKey
pub mod Matching
pub mod Metadata
pub mod Middleware
pub mod Receiver
