-- ===== src/Runtime.antt =====
-- The runtime: pkg/runtime/runtime.go, config.go and service/subscriber.go.
pub mod Config
pub mod Handlers
pub mod Updates
pub mod Start
