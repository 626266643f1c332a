-- ===== src/Api/Hostnames.antt =====
-- The host names: registering, assigning and forgetting one (backend/src/atrium_ddns/router.py).
use atrium_ddns.Prelude.{
  ℕ, Bool, ◌&&◌, ◌||◌, not, Option, none, some, List, [], ◌∷◌, ◌++◌, map, any, ◌==◌, if◌then◌else◌,
  or_default,
}
use atrium_ddns.Text.{Text, lower, text_eq}
use atrium_ddns.Hostname.{split_hostnames}
use atrium_ddns.Zone.{zone_contains}
use atrium_ddns.Store.{Tables, Hostname}
use atrium_ddns.Scope.{DdnsScope, get_hostname}
use atrium_ddns.Api.Replies.{
  not_found, conflict, unprocessable, Reply, replied, ◌>>=◌, ◌>>◌, required, refuse_if, Database,
}
use atrium_ddns.Api.Rows.{get_domain, get_device, remove_hostname}

abbrev one_name : Option (List Text) → Option Text
one_name none = none
one_name (some []) = none
one_name (some (name ∷ [])) = some name
one_name (some (name ∷ other ∷ rest)) = none

-- `_validated_hostname`.
unfoldable pub validated_hostname : Text → Text → Reply Text
unfolding split_hostnames zone_contains
validated_hostname raw zone = do
  name ← required unprocessable (one_name (split_hostnames (lower raw)))
  refuse_if unprocessable (not (zone_contains zone name))
  replied name

pub record HostnameCreateIn : Type 0 where
  pub name : Text
  pub domain_id : ℕ
  pub device_id : Option ℕ

-- A device that is not named is none; one that is out of reach is refused.
abbrev pub device_for : DdnsScope → Tables → Option ℕ → Reply (Option ℕ)
device_for scope t none = replied none
device_for scope t (some id) = do
  d ← required not_found (get_device scope t id)
  replied (some d.id)

abbrev pub is_registered : Database → Tables → Text → Bool
is_registered db t name = any (λ h. db.same_text h.name name) t.hostnames

abbrev pub new_hostname : ℕ → ℕ → Option ℕ → Text → Hostname
new_hostname id domain_id device_id name = record {
  id = id;
  domain_id = domain_id;
  device_id = device_id;
  name = name;
  ttl = none;
  last_ip_v4 = none;
  last_ip_v6 = none;
  last_updated_at = none;
  dns_ip_v4 = none;
  dns_ip_v6 = none;
  dns_checked_at = none;
  dns_check_error = none;
}

-- The id is the one that the database gives the row.
unfoldable pub create_hostname :
    Database → DdnsScope → ℕ → HostnameCreateIn → Tables → Reply (Hostname × Tables)
unfolding get_domain get_device validated_hostname
create_hostname db scope id body t = do
  d ← required not_found (get_domain scope t body.domain_id)
  device ← device_for scope t body.device_id
  name ← validated_hostname body.name d.name
  refuse_if conflict (is_registered db t name)
  let h = new_hostname id d.id device name
  replied (h, record t { hostnames = t.hostnames ++ h ∷ [] })

-- `none` is a field that is left out; for the device it is also the `null` that unassigns.
pub record HostnameAssignIn : Type 0 where
  pub device_id : Option ℕ
  pub domain_id : Option ℕ
  pub name : Option Text

-- The name after the request: the new one, or the old one when the row moves, is validated in the target
-- zone.
abbrev pub target_name : HostnameAssignIn → Hostname → Text → Reply Text
target_name body h zone = elim body.name [
  | some name ↦ validated_hostname name zone
  | none ↦ elim body.domain_id [ some _ ↦ validated_hostname h.name zone | none ↦ replied h.name ]
]

abbrev pub is_registered_by_other : Database → Tables → ℕ → Text → Bool
is_registered_by_other db t id name =
    any (λ h. not (h.id == id) && db.same_text h.name name) t.hostnames

abbrev pub assigned : ℕ → Option ℕ → Text → Hostname → Hostname
assigned domain_id device_id name h = record h {
  domain_id = domain_id;
  device_id = device_id;
  name = name;
}

-- The index is looked at when the name or the zone changes.
abbrev has_changed : Hostname → ℕ → Text → Bool
has_changed h domain_id name = not (text_eq name h.name) || not (domain_id == h.domain_id)

unfoldable pub assign_hostname :
    Database → DdnsScope → ℕ → HostnameAssignIn → Tables → Reply (Hostname × Tables)
unfolding get_hostname get_domain get_device validated_hostname
assign_hostname db scope id body t = do
  h ← required not_found (get_hostname scope t id)
  device ← device_for scope t body.device_id
  d ← required not_found (get_domain scope t (or_default body.domain_id h.domain_id))
  name ← target_name body h d.name
  refuse_if conflict (has_changed h d.id name && is_registered_by_other db t h.id name)
  replied (
    assigned d.id device name h,
    record t {
      hostnames = map (λ x. if x.id == h.id then assigned d.id device name x else x) t.hostnames;
    },
  )

unfoldable pub delete_hostname : DdnsScope → ℕ → Tables → Reply Tables
unfolding get_hostname remove_hostname
delete_hostname scope id t = do
  h ← required not_found (get_hostname scope t id)
  replied (remove_hostname id t)
