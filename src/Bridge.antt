-- ===== src/Bridge.antt =====
-- The Pi Bridge (src/pi_opensandbox_runner): its session catalog, its event journal, and the
-- supervisor of the Pi processes.
pub mod Problem
pub mod Catalog
pub mod Journal
pub mod Supervisor
pub mod Prompts
pub mod Sessions
mod Examples
