-- ===== src/Grpc.antt =====
-- The gRPC API: pkg/api/runtime/grpc/grpc_api.go.
pub mod Publish
pub mod Acks
pub mod Subscriptions
