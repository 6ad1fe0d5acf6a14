-- ===== src/Loader.antt =====
-- The loaders of pkg/custom-resource: components/loader/local.go and configuration/loader/local.go.
pub mod Split
pub mod Yaml
