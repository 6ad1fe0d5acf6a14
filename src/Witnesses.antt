-- ===== src/Witnesses.antt =====
-- Concrete inputs for the theorems, and runs of the definitions.
mod Operator
mod Grpc
mod Runtime
mod Components
mod Nats
mod JetStream
mod Injector
mod Loader
mod Subscriptions
mod Watchers
mod Telemetry
