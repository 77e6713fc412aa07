-- ===== src/Firewall.antt =====
-- Security group rules as NSX-T firewall rules.
pub mod Tables
pub mod Model
pub mod Spec
mod Parts
pub mod Placement
pub mod Dropped
pub mod Services
mod Examples
