-- ===== src/Ports.antt =====
-- Ports: port_update and port_delete of
-- networking_nsxv3/plugins/ml2/drivers/nsxv3/agent/nsxv3_facada.py, and port_update, port_delete,
-- sync_port and get_network_bridge of nsxv3_agent.py beside it.
pub mod Facada
pub mod Agent
pub mod Addresses
pub mod Bindings
mod Bridge
mod Examples
