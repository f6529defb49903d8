-- ===== src/Connect.antt =====
-- apps/web/protocol/endpointPolicy.ts and connectConfig.ts: which addresses the page may connect to.
pub mod Endpoint
pub mod Isolation
pub mod Profiles
pub mod Choice
