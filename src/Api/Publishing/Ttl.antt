-- ===== src/Api/Publishing/Ttl.antt =====
-- The TTL that the page shows against the one that is published.
