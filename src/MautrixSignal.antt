-- ===== src/MautrixSignal.antt =====
-- The controller of the mautrix-signal bridge: controllers/synapse/mautrixsignal.
pub mod Effects
pub mod Keeps
pub mod Confined
pub mod Wiring
pub mod Steps
pub mod Access
pub mod Config
pub mod Resources
pub mod Controller
