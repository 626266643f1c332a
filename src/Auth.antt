-- ===== src/Auth.antt =====
-- Device authentication (backend/src/atrium_ddns/auth_device.py): credentials from the header, the
-- password check, `authenticate_device`, the client's address, and the rate limit.
pub mod Base64
pub mod Utf8
pub mod Header
pub mod Password
pub mod Device
pub mod RateLimit
