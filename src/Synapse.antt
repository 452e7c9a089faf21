-- ===== src/Synapse.antt =====
-- The Synapse controller, controllers/synapse/synapse.
pub mod Access
pub mod Database
pub mod Status
pub mod Resources
pub mod Deployment
pub mod Postgres
pub mod Config
pub mod Children
pub mod Controller
