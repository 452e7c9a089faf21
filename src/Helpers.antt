-- ===== src/Helpers.antt =====
-- The packages helpers/reconcile and helpers/utils.
pub mod Naming
pub mod Reconcile
pub mod Config
pub mod Owned
