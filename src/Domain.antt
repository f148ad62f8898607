-- ===== src/Domain.antt =====
-- internal/domain: what is decided from stored values alone.
pub mod Catalog
pub mod Workload
pub mod Messaging
pub mod Evidence
pub mod Frontend
pub mod Recipe
