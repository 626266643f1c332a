-- ===== src/Api/Adopt.antt =====
-- `adopt_zone` (backend/src/atrium_ddns/router.py): what the zone carries is recorded as published.
pub mod Once
use atrium_ddns.Prelude.{
  ℕ, Bool, not, Option, none, some, List, [], ◌∷◌, ◌++◌, length, find?, ◌==◌, or_default, is_some,
  map_option,
}
use atrium_ddns.Text.{Text, codes}
use atrium_ddns.Status.{EventType}
use atrium_ddns.Store.{
  Tables, User, Domain, Device, Hostname, DnsEvent, Instant, add_event, change_hostname,
}
use atrium_ddns.Scope.{DdnsScope}
use atrium_ddns.Auth.Device.{DeviceAuth}
use atrium_ddns.Api.Replies.{conflict, Reply, replied, ◌>>=◌, ◌>>◌, refuse_if}
use atrium_ddns.Api.Rows.{get_device}
use atrium_ddns.Api.Publishing.{load_publishing, agrees, either_address}

-- `owner_email or ""`.
abbrev pub owner_email : Tables → Domain → Text
owner_email t d =
    or_default (map_option (λ (u : User). u.email) (find? (λ u. u.id == d.user_id) t.users)) []

-- The device of the name, if it has one in reach, as the owner of the zone.
abbrev device_of : DdnsScope → Tables → Option ℕ → Option Device
device_of scope t none = none
device_of scope t (some id) = get_device scope t id

abbrev pub auth_for : Tables → Domain → Device → DeviceAuth
auth_for t d device = record { device = device; user_id = d.user_id; user_email = owner_email t d }

-- `f"…{x!r}…"`: how an address or None is printed is a parameter.
abbrev adopt_message : (Option Text → Text) → Hostname → Text
adopt_message repr h =
    codes "adopted the zone's addresses for "
    ++ h.name
    ++ codes "; was v4="
    ++ repr h.last_ip_v4
    ++ codes " v6="
    ++ repr h.last_ip_v6
    ++ codes ", now v4="
    ++ repr h.dns_ip_v4
    ++ codes " v6="
    ++ repr h.dns_ip_v6

-- The call of `record_event`, which has no answer and no plan here, and an actor only with a device.
unfoldable pub adopt_event :
    (Option Text → Text) → Instant → Option DeviceAuth → Hostname → DnsEvent
adopt_event repr moment auth h = record {
  created_at = moment;
  user_id = map_option (λ a. a.user_id) auth;
  device_id = map_option (λ a. a.device.id) auth;
  domain_id = none;
  hostname_id = none;
  user_email = map_option (λ a. a.user_email) auth;
  device_name = map_option (λ a. a.device.name) auth;
  domain_name = none;
  hostname = none;
  event_type = EventType.adopt_zone;
  response_code = none;
  client_ip = none;
  ip = either_address h.dns_ip_v6 h.dns_ip_v4;
  backend_type = none;
  message = some (adopt_message repr h);
}

-- The row after it.
unfoldable pub adopt : Hostname → Hostname
adopt h = record h { last_ip_v4 = h.dns_ip_v4; last_ip_v6 = h.dns_ip_v6 }

unfoldable pub adopt_zone :
    (Option Text → Text) → (ℕ → Instant) → DdnsScope → ℕ → Tables → Reply (Hostname × Tables)
unfolding load_publishing agrees adopt adopt_event get_device
adopt_zone repr logged scope id t = do
  loaded ← load_publishing scope t id
  let h : Hostname = loaded.0
  refuse_if conflict (not (is_some h.dns_checked_at))
  refuse_if conflict (agrees h)
  let auth = map_option (auth_for t loaded.1) (device_of scope t h.device_id)
  replied (
    adopt h,
    add_event (adopt_event repr (logged (length t.events)) auth h)
        (record t { hostnames = change_hostname h.id adopt t.hostnames }),
  )
