-- ===== src/Api.antt =====
-- api/v1: the custom resources of the group platform.company.com/v1. Each Go struct is a record
-- with the struct's fields in their order; a pointer field is an `Option`, a `map` that may be nil
-- an `Option` of a `Dict`.
pub mod Meta
pub mod Owner
pub mod Database
pub mod Broker
pub mod Team
pub mod Tenant
pub mod Application
