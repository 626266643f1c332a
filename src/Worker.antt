-- ===== src/Worker.antt =====
-- The background jobs (backend/src/atrium_ddns/worker_jobs.py).
pub mod Checks
pub mod Config
pub mod Summary
pub mod Devices
pub mod Health
pub mod Write
pub mod Sweep
pub mod Clear
pub mod Prune
