-- ===== src/Client.antt =====
-- The NSX-T client: networking_nsxv3/plugins/ml2/drivers/nsxv3/agent/nsxv3_client.py.
pub mod Policy
pub mod Retry
pub mod Queries
pub mod Operations
pub mod Session
mod Login
pub mod Crud
pub mod Store
mod Deleting
mod Examples
mod StoreExamples
mod SessionExamples
