-- ===== src/Heisenbridge.antt =====
-- The controller of the Heisenbridge, an IRC bridge: controllers/synapse/heisenbridge.
pub mod Effects
pub mod Keeps
pub mod Confined
pub mod Wiring
pub mod Steps
pub mod Command
pub mod Access
pub mod Resources
pub mod Controller
