-- ===== src/Store.antt =====
-- The tables (backend/src/atrium_ddns/models.py) and the session over them. `resolve_backends` and
-- `resolve_ttl` are in the child modules. Left out are `created_at` and `updated_at` of `TimestampMixin`, and
-- `created_at` of `HostnameBackend`: the database writes them, and every UPDATE of a row sets its `updated_at`.
pub mod Selection
use atrium_ddns.Prelude.{ℕ, Bool, Option, List, [], ◌∷◌, ◌++◌, ◌==◌, if◌then◌else◌}
use atrium_ddns.Prelude.Int.{ℤ}
use atrium_ddns.Text.{Text}
use atrium_ddns.Dict.{Dict}
use atrium_ddns.Status.{Status, EventType}
use atrium_ddns.Provider.Account.{Json}

-- Microseconds of naive UTC.
abbrev pub Instant : Type 0
Instant = ℕ

-- `users`, as far as this program reads it.
pub record User : Type 0 where
  pub id : ℕ
  pub email : Text
  pub is_active : Bool

pub record Domain : Type 0 where
  pub id : ℕ
  pub user_id : ℕ
  pub name : Text

-- `DomainBackend`; the credentials are the ciphertext, and `none` is NULL.
pub record Backend : Type 0 where
  pub id : ℕ
  pub domain_id : ℕ
  pub user_id : ℕ
  pub backend_type : Text
  pub config : Dict Json
  pub credentials_ct : Option Text

pub record Device : Type 0 where
  pub id : ℕ
  pub user_id : ℕ
  pub username : Text
  pub password_hash : Text
  pub name : Text
  pub last_seen_at : Option Instant
  pub last_ip_v4 : Option Text
  pub last_ip_v6 : Option Text
  pub last_user_agent : Option Text
  pub rate_limit_per_minute : Option ℤ

pub record Hostname : Type 0 where
  pub id : ℕ
  pub domain_id : ℕ
  pub device_id : Option ℕ
  pub name : Text
  pub ttl : Option ℤ
  pub last_ip_v4 : Option Text
  pub last_ip_v6 : Option Text
  pub last_updated_at : Option Instant
  pub dns_ip_v4 : Option Text
  pub dns_ip_v6 : Option Text
  pub dns_checked_at : Option Instant
  pub dns_check_error : Option Text

-- `HostnameBackend`: this name publishes to that binding.
pub record Selected : Type 0 where
  pub hostname_id : ℕ
  pub backend_id : ℕ

pub record DnsEvent : Type 0 where
  pub created_at : Instant
  pub user_id : Option ℕ
  pub device_id : Option ℕ
  pub domain_id : Option ℕ
  pub hostname_id : Option ℕ
  pub user_email : Option Text
  pub device_name : Option Text
  pub domain_name : Option Text
  pub hostname : Option Text
  pub event_type : EventType
  pub response_code : Option Status
  pub client_ip : Option Text
  pub ip : Option Text
  pub backend_type : Option Text
  pub message : Option Text

pub record RateLimitEvent : Type 0 where
  pub device_id : ℕ
  pub created_at : Instant

-- Rows are in the order of their ids; a new row goes to the end.
pub record Tables : Type 0 where
  pub users : List User
  pub domains : List Domain
  pub backends : List Backend
  pub devices : List Device
  pub hostnames : List Hostname
  pub selections : List Selected
  pub events : List DnsEvent
  pub rate_events : List RateLimitEvent

-- A session: what is committed, and what the transaction sees.
pub record Session : Type 0 where
  pub committed : Tables
  pub current : Tables

abbrev pub add_event : DnsEvent → Tables → Tables
add_event event t = record t { events = t.events ++ event ∷ [] }

abbrev pub add_rate_event : RateLimitEvent → Tables → Tables
add_rate_event event t = record t { rate_events = t.rate_events ++ event ∷ [] }

-- A change of one loaded row.
abbrev pub change_device : ℕ → (Device → Device) → List Device → List Device
change_device id f [] = []
change_device id f (d ∷ ds) = (if d.id == id then f d else d) ∷ change_device id f ds

abbrev pub change_hostname : ℕ → (Hostname → Hostname) → List Hostname → List Hostname
change_hostname id f [] = []
change_hostname id f (h ∷ hs) = (if h.id == id then f h else h) ∷ change_hostname id f hs
