-- ===== src/Control.antt =====
-- services/control-plane/src/authorization.mjs: who may do what on the control plane.
pub mod Values
pub mod Policy
pub mod Lease
pub mod Authorize
pub mod Granted
pub mod Terms
