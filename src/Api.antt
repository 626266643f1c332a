-- ===== src/Api.antt =====
-- The tenant's REST interface (backend/src/atrium_ddns/router.py).
pub mod Replies
pub mod Rows
pub mod Backends
pub mod Zones
pub mod Hostnames
pub mod Devices
pub mod Sound
pub mod Secrets
pub mod Events
pub mod Publishing
pub mod Adopt
pub mod Manual
