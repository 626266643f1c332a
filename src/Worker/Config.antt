-- ===== src/Worker/Config.antt =====
-- `DdnsConfig`, with the bounds of its fields (backend/src/atrium_ddns/worker_jobs.py). The timeout of a
-- query is left to the resolver, which is a parameter.
use atrium_ddns.Prelude.{
  ℕ, Bool, ◌&&◌, Option, none, some, List, length, leb, ltb, if◌then◌else◌, ◌>>=◌,
}
use atrium_ddns.Text.{Text}
use atrium_ddns.Resolvers.{normalise_resolvers}

pub record DdnsConfig : Type 0 where
  pub event_retention_days : ℕ
  pub rate_limit_event_retention_hours : ℕ
  pub prune_batch_size : ℕ
  pub prune_max_batches : ℕ
  pub health_check_enabled : Bool
  pub health_check_interval_minutes : ℕ
  pub health_check_batch_size : ℕ
  pub health_check_publish_grace_seconds : ℕ
  pub health_check_concurrency : ℕ
  pub health_check_manual_cooldown_seconds : ℕ
  pub device_idle_window_days : ℕ
  pub rate_limit_per_minute : ℕ
  pub dns_resolvers : List Text

-- `ge` and `le` of a field.
abbrev pub between : ℕ → ℕ → ℕ → Bool
between low high n = leb low n && leb n high

-- The bounds of the numbers, in the order of the fields.
abbrev pub numbers_in_bounds : DdnsConfig → Bool
numbers_in_bounds c =
    between 1 3650 c.event_retention_days
    && between 1 8760 c.rate_limit_event_retention_hours
    && between 1 50000 c.prune_batch_size
    && between 1 10000 c.prune_max_batches
    && between 1 1440 c.health_check_interval_minutes
    && between 1 10000 c.health_check_batch_size
    && between 0 3600 c.health_check_publish_grace_seconds
    && between 1 64 c.health_check_concurrency
    && between 0 86400 c.health_check_manual_cooldown_seconds
    && between 1 365 c.device_idle_window_days
    && between 0 10000 c.rate_limit_per_minute

-- `MIN_DNS_RESOLVERS` and `MAX_DNS_RESOLVERS`.
abbrev min_dns_resolvers : ℕ
min_dns_resolvers = 1

abbrev max_dns_resolvers : ℕ
max_dns_resolvers = 16

-- `_canonical_resolvers`: it runs on a list whose length is in bounds, and `none` is the `ValueError`.
unfoldable pub canonical_resolvers : List Text → Option (List Text)
unfolding normalise_resolvers
canonical_resolvers value = do
  cleaned ← normalise_resolvers value
  if ltb (length cleaned) min_dns_resolvers then none else some cleaned

-- `DdnsConfig.model_validate`.
unfoldable pub model_validate : DdnsConfig → Option DdnsConfig
unfolding canonical_resolvers
model_validate c =
    if numbers_in_bounds c && between min_dns_resolvers max_dns_resolvers (length c.dns_resolvers)
    then (do
      cleaned ← canonical_resolvers c.dns_resolvers
      some (record c { dns_resolvers = cleaned }))
    else none
