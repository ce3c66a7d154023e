-- ===== src/Tests.antt =====
-- Concrete inputs, and the theorems applied to them.
pub mod Data
pub mod Configs
pub mod Access
pub mod Web
pub mod Pools
pub mod Apply
pub mod Tunnel
pub mod Sources
pub mod Generated
pub mod Managed
