-- ===== src/Nic.antt =====
-- The DynDNS endpoints (backend/src/atrium_ddns/router_nic.py).
pub mod Dns
pub mod Load
pub mod Events
pub mod Persist
pub mod Admit
pub mod Params
pub mod Handlers
