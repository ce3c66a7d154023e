-- ===== src/Config.antt =====
-- The daemon's configuration: mihomotui/config.go, config_validate.go, config_store.go, secrets.go.
pub mod Types
pub mod Lookup
pub mod Validate
pub mod Secrets
pub mod Disk
pub mod Store
pub mod Load
