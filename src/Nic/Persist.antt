-- ===== src/Nic/Persist.antt =====
-- `persist_updates`.
pub mod Frame
pub mod Callers
use atrium_ddns.Prelude.{ℕ, Option, none, some, List, [], ◌∷◌, if◌then◌else◌}
use atrium_ddns.Text.{Text}
use atrium_ddns.Address.{RecordType, a, aaaa}
use atrium_ddns.Status.{Status, good, is_settled}
use atrium_ddns.Store.{Tables, Hostname, Instant, change_hostname}
use atrium_ddns.Scope.{DdnsScope, get_hostname}
use atrium_ddns.Nic.Dns.{HostnameResult}

-- The address that the zone carries now, in the one column of its family.
abbrev pub set_ip : RecordType → Text → Hostname → Hostname
set_ip a ip row = record row { last_ip_v4 = some ip }
set_ip aaaa ip row = record row { last_ip_v6 = some ip }

-- After a publish: the moment, and no DNS observation of that family.
abbrev pub published : RecordType → Instant → Hostname → Hostname
published a moment row = record row {
  last_updated_at = some moment;
  dns_ip_v4 = none;
  dns_checked_at = none;
  dns_check_error = none;
}
published aaaa moment row = record row {
  last_updated_at = some moment;
  dns_ip_v6 = none;
  dns_checked_at = none;
  dns_check_error = none;
}

-- What a settled status does to the row.
unfoldable pub settle : RecordType → Text → Instant → Status → Hostname → Hostname
settle rtype ip moment good row = published rtype moment (set_ip rtype ip row)
settle rtype ip moment _ row = set_ip rtype ip row

-- A row that the scope does not find is passed over.
abbrev write_row : Option Hostname → RecordType → Text → Instant → Status → Tables → Tables
write_row none rtype ip moment status t = t
write_row (some row) rtype ip moment status t = record t {
  hostnames = change_hostname row.id (settle rtype ip moment status) t.hostnames;
}

abbrev persist_id : DdnsScope → Text → RecordType → Instant → Status → Option ℕ → Tables → Tables
persist_id scope ip rtype moment status none t = t
persist_id scope ip rtype moment status (some id) t =
    write_row (get_hostname scope t id) rtype ip moment status t

-- One result: only a settled one of a resolved name is written.
unfoldable pub persist_result :
    DdnsScope → Text → RecordType → Instant → HostnameResult → Tables → Tables
persist_result scope ip rtype moment result t =
    if is_settled result.status
    then persist_id scope ip rtype moment result.status result.plan.hostname_id t
    else t

unfoldable pub persist_updates :
    DdnsScope → List HostnameResult → Text → RecordType → Instant → Tables → Tables
persist_updates scope [] ip rtype moment t = t
persist_updates scope (result ∷ results) ip rtype moment t =
    persist_updates scope results ip rtype moment (persist_result scope ip rtype moment result t)
