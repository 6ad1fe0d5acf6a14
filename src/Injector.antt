-- ===== src/Injector.antt =====
-- The sidecar injector: pkg/injector/pod_patch.go, injector.go, config.go and validation.go, with
-- pkg/utils/strings.go.
pub mod Kube
pub mod Annotations
pub mod EnvString
pub mod Resources
pub mod Sidecar
pub mod EnvPatch
pub mod PodPatch
pub mod Webhook
pub mod Accounts
