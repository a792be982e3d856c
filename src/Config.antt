-- ===== src/Config.antt =====
-- internal/config/config.go: the configuration file.
pub mod State
pub mod Duration
pub mod Lines
pub mod Validate
pub mod Valid
pub mod Refused
pub mod Upstream
