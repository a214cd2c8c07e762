-- ===== src/Manager.antt =====
-- The Runner Manager (src/pi_opensandbox_manager): its database, its operations and its API.
pub mod Problem
pub mod Models
pub mod Crypto
pub mod Catalog
pub mod Operations
pub mod Upstream
pub mod Exec
pub mod Load
pub mod Executor
pub mod Monitor
pub mod Api
pub mod Security
pub mod Turns
pub mod Sessions
pub mod Terminals
pub mod Examples
