-- ===== src/Server/Receiver.antt =====
-- The webhook receiver of internal/server/receiver_handlers.go.
pub mod Validate
pub mod Reconcile
pub mod Handler
