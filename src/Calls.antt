-- ===== src/Calls.antt =====
-- The application plane's half of the call seam: src/bluelab/calls.
pub mod Json
pub mod Lease
pub mod Database
pub mod Admission
pub mod Text
pub mod Completion
pub mod Interruption
pub mod Registry
pub mod Egress
pub mod Plane
pub mod Sweep
mod Examples
