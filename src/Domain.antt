-- ===== src/Domain.antt =====
-- apps/api/app/domain: the types and the pure policies.
mod Examples
pub mod Models
pub mod Leases
pub mod Lifecycle
pub mod Close
pub mod Projection
