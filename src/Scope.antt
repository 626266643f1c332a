-- ===== src/Scope.antt =====
-- The tenancy boundary (backend/src/atrium_ddns/scope.py): `TENANT_PATHS`, `DdnsScope` and its
-- predicate.
pub mod Isolation
use atrium_ddns.Prelude.{
  ℕ, Bool, true, false, ◌&&◌, ◌||◌, Option, none, some, List, [], ◌∷◌, ◌==◌, filter, any, find?,
  is_some, if◌then◌else◌,
}
use atrium_ddns.Text.{Text, is_empty, strip}
use atrium_ddns.Store.{
  Tables, Domain, Backend, Device, Hostname, Selected, DnsEvent, RateLimitEvent,
}

-- The permissions that the boundary knows; `other` is any other.
pub data Permission : Type 0 where
  admin events_read_all other : Permission

-- The tables with a tenant, and the one without.
pub data Model : Type 0 where
  domain backend device hostname selection dns_event rate_limit_event ddns_state : Model

abbrev same_permission : Permission → Permission → Bool
same_permission admin admin = true
same_permission events_read_all events_read_all = true
same_permission other other = true
same_permission _ _ = false

abbrev holds : List Permission → Permission → Bool
holds held p = any (same_permission p) held

-- `classify`, with the permissions of the model's path; `none` is `NotTenantScoped`.
unfoldable pub classify : Model → Option (List Permission)
classify ddns_state = none
classify dns_event = some (admin ∷ events_read_all ∷ [])
classify _ = some (admin ∷ [])

pub record DdnsScope : Type 0 where
  pub user_id : Option ℕ
  pub permissions : List Permission
  pub cross_tenant_reason : Option Text

unfoldable pub for_principal : ℕ → List Permission → DdnsScope
for_principal user_id permissions = record {
  user_id = some user_id;
  permissions = permissions;
  cross_tenant_reason = none;
}

unfoldable pub for_user_id : ℕ → DdnsScope
for_user_id user_id = record {
  user_id = some user_id;
  permissions = [];
  cross_tenant_reason = none;
}

-- `none` is the `ValueError` for an empty or blank reason.
unfoldable pub cross_tenant : Text → Option DdnsScope
cross_tenant reason =
    if is_empty reason || is_empty (strip reason)
    then none
    else some (record { user_id = none; permissions = []; cross_tenant_reason = some reason })

-- `bool(self.permissions & path.cross_tenant_permissions)`.
abbrev lifts : DdnsScope → List Permission → Bool
lifts scope lifting = any (holds scope.permissions) lifting

unfoldable pub reaches_all_tenants : DdnsScope → List Permission → Bool
reaches_all_tenants scope lifting = is_some scope.cross_tenant_reason || lifts scope lifting

-- The clause of a model with these lifting permissions, for a row that `owns` tells the owner of.
unfoldable pub admits : DdnsScope → List Permission → (ℕ → Bool) → Bool
unfolding reaches_all_tenants
admits scope lifting owns =
    if reaches_all_tenants scope lifting
    then true
    else elim scope.user_id [ none ↦ false | some uid ↦ owns uid ]

-- How a row's owner is reached.
abbrev pub owns_domain : Domain → ℕ → Bool
owns_domain d uid = d.user_id == uid

abbrev pub owns_backend : Backend → ℕ → Bool
owns_backend b uid = b.user_id == uid

abbrev pub owns_device : Device → ℕ → Bool
owns_device d uid = d.user_id == uid

-- `EXISTS (SELECT 1 FROM domain WHERE domain.id = hostname.domain_id AND domain.user_id = uid)`.
abbrev pub owns_hostname : Tables → Hostname → ℕ → Bool
owns_hostname t h uid = any (λ d. d.id == h.domain_id && d.user_id == uid) t.domains

abbrev pub owns_selection : Tables → Selected → ℕ → Bool
owns_selection t s uid = any (λ h. h.id == s.hostname_id && owns_hostname t h uid) t.hostnames

-- NULL never equals anything.
abbrev pub owns_event : DnsEvent → ℕ → Bool
owns_event e uid = elim e.user_id [ none ↦ false | some owner ↦ owner == uid ]

abbrev pub owns_rate_event : Tables → RateLimitEvent → ℕ → Bool
owns_rate_event t e uid = any (λ d. d.id == e.device_id && d.user_id == uid) t.devices

-- A scoped predicate of a model: `none` where the model has no tenant.
unfoldable pub predicate : DdnsScope → Model → (ℕ → Bool) → Option Bool
unfolding classify admits
predicate scope model owns = elim (classify model) [
  | none ↦ none
  | some lifting ↦ some (admits scope lifting owns)
]

abbrev pub sees : DdnsScope → Model → (ℕ → Bool) → Bool
sees scope model owns = elim (predicate scope model owns) [ none ↦ false | some b ↦ b ]

-- `scope.select(Hostname)` and its like, before the statement's own `where`.
unfoldable pub select_hostnames : DdnsScope → Tables → List Hostname
unfolding predicate
select_hostnames scope t = filter (λ h. sees scope hostname (owns_hostname t h)) t.hostnames

unfoldable pub select_rate_events : DdnsScope → Tables → List RateLimitEvent
unfolding predicate
select_rate_events scope t =
    filter (λ e. sees scope rate_limit_event (owns_rate_event t e)) t.rate_events

-- `scope.get(session, Hostname, pk)`.
unfoldable pub get_hostname : DdnsScope → Tables → ℕ → Option Hostname
unfolding select_hostnames
get_hostname scope t pk = find? (λ h. h.id == pk) (select_hostnames scope t)
