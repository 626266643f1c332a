-- ===== src/Provider.antt =====
-- The provider package (backend/src/atrium_ddns/providers): what an adapter knows about a backend
-- row, its zones, the network it asks, and the three adapters.
pub mod Account
pub mod Zones
pub mod Network
pub mod Check
pub mod Adapter
pub mod Hetzner
pub mod Route53
pub mod NsUpdate
pub mod Registry
