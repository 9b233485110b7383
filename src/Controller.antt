-- ===== src/Controller.antt =====
-- internal/controller: the reconcilers.
pub mod Database
pub mod Team
pub mod Application
pub mod Tenant
pub mod Broker
pub mod Refused
