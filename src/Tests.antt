-- ===== src/Tests.antt =====
-- Concrete runs of the definitions, and instances of the theorems.
pub mod Protocol
pub mod Machines
pub mod Pages
pub mod Profiles
pub mod Stores
pub mod Tenants
pub mod Scanning
pub mod Adapters
pub mod Clients
pub mod Outboxes
