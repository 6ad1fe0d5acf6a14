-- ===== src/Operator.antt =====
-- The operator: pkg/operator/operator.go.
pub mod Watcher
pub mod Types
pub mod Server
pub mod Client
