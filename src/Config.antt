-- ===== src/Config.antt =====
-- pkg/config/config.go: the configuration file, its limits on unhealthy nodes, and its parsing.
pub mod Limit
pub mod Duration
pub mod Defs
pub mod Load
pub mod Decimal
pub mod Print
pub mod Parse
