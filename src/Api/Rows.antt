-- ===== src/Api/Rows.antt =====
-- Scoped reads by id, and deletions with what the foreign keys do
-- (backend/src/atrium_ddns/models.py, `DdnsScope.get` of scope.py).
use atrium_ddns.Prelude.{
  ℕ, Bool, ◌&&◌, ◌||◌, not, Option, none, some, map, filter, any, find?, ◌==◌, if◌then◌else◌,
}
use atrium_ddns.Store.{Tables, Domain, Backend, Device, Hostname, DnsEvent}
use atrium_ddns.Scope.{
  DdnsScope, sees, predicate, domain, backend, device, owns_domain, owns_backend, owns_device,
}

-- `scope.get(session, Model, pk)`.
unfoldable pub get_domain : DdnsScope → Tables → ℕ → Option Domain
unfolding predicate
get_domain scope t pk = find? (λ d. d.id == pk && sees scope domain (owns_domain d)) t.domains

unfoldable pub get_backend : DdnsScope → Tables → ℕ → Option Backend
unfolding predicate
get_backend scope t pk = find? (λ b. b.id == pk && sees scope backend (owns_backend b)) t.backends

unfoldable pub get_device : DdnsScope → Tables → ℕ → Option Device
unfolding predicate
get_device scope t pk = find? (λ d. d.id == pk && sees scope device (owns_device d)) t.devices

-- `ON DELETE SET NULL` of a reference to any of these rows.
abbrev pub null_if : (ℕ → Bool) → Option ℕ → Option ℕ
null_if gone none = none
null_if gone (some id) = if gone id then none else some id

-- The events of what is gone keep their names and lose their references.
abbrev pub forget_hostname : (ℕ → Bool) → DnsEvent → DnsEvent
forget_hostname gone e = record e { hostname_id = null_if gone e.hostname_id }

abbrev pub forget_domain : ℕ → DnsEvent → DnsEvent
forget_domain id e = record e { domain_id = null_if (λ d. d == id) e.domain_id }

abbrev pub forget_device : ℕ → DnsEvent → DnsEvent
forget_device id e = record e { device_id = null_if (λ d. d == id) e.device_id }

abbrev pub unassign : ℕ → Hostname → Hostname
unassign id h = record h { device_id = null_if (λ d. d == id) h.device_id }

-- Rows of a zone, by id.
abbrev pub hostname_under : Tables → ℕ → ℕ → Bool
hostname_under t id pk = any (λ h. h.id == pk && h.domain_id == id) t.hostnames

abbrev pub backend_under : Tables → ℕ → ℕ → Bool
backend_under t id pk = any (λ b. b.id == pk && b.domain_id == id) t.backends

-- A zone goes with its bindings, its host names and what they select.
unfoldable pub remove_domain : ℕ → Tables → Tables
remove_domain id t = record t {
  domains = filter (λ d. not (d.id == id)) t.domains;
  backends = filter (λ b. not (b.domain_id == id)) t.backends;
  hostnames = filter (λ h. not (h.domain_id == id)) t.hostnames;
  selections =
      filter (λ s. not (hostname_under t id s.hostname_id || backend_under t id s.backend_id))
        t.selections;
  events = map (λ e. forget_domain id (forget_hostname (hostname_under t id) e)) t.events;
}

unfoldable pub remove_backend : ℕ → Tables → Tables
remove_backend id t = record t {
  backends = filter (λ b. not (b.id == id)) t.backends;
  selections = filter (λ s. not (s.backend_id == id)) t.selections;
}

unfoldable pub remove_hostname : ℕ → Tables → Tables
remove_hostname id t = record t {
  hostnames = filter (λ h. not (h.id == id)) t.hostnames;
  selections = filter (λ s. not (s.hostname_id == id)) t.selections;
  events = map (forget_hostname (λ h. h == id)) t.events;
}

-- A device goes with its slots; its host names stay, unassigned.
unfoldable pub remove_device : ℕ → Tables → Tables
remove_device id t = record t {
  devices = filter (λ d. not (d.id == id)) t.devices;
  hostnames = map (unassign id) t.hostnames;
  events = map (forget_device id) t.events;
  rate_events = filter (λ e. not (e.device_id == id)) t.rate_events;
}
