-- ===== src/Nic/Persist/Callers.antt =====
-- What is persisted does not depend on the devices, the rows of the rate limit or the log.
use atrium_ddns.Prelude.{
  ℕ, ◌≡◌, refl, ap, ◌∙◌, Bool, true, false, Option, none, some, List, [], ◌∷◌, if◌then◌else◌,
}
use atrium_ddns.Text.{Text}
use atrium_ddns.Address.{RecordType}
use atrium_ddns.Status.{is_settled, Status}
use atrium_ddns.Store.{Tables, Hostname, Instant}
use atrium_ddns.Scope.{DdnsScope, get_hostname, select_hostnames}
use atrium_ddns.Auth.Device.Attribution.{apart_from_callers}
use atrium_ddns.Nic.Dns.{HostnameResult}
use atrium_ddns.Nic.Persist.{persist_updates, persist_result, persist_id, write_row}

write_row-apart_from_callers :
    (o : Option Hostname) (ip : Text) (rtype : RecordType) (moment : Instant) (status : Status)
    (t : Tables)
    → apart_from_callers (write_row o rtype ip moment status t)
      ≡ write_row o rtype ip moment status (apart_from_callers t)
write_row-apart_from_callers none ip rtype moment status t = refl
write_row-apart_from_callers (some row) ip rtype moment status t = refl

persist_id-apart_from_callers :
    (sc : DdnsScope) (ip : Text) (rtype : RecordType) (moment : Instant) (status : Status)
    (id : Option ℕ) (t : Tables)
    → apart_from_callers (persist_id sc ip rtype moment status id t)
      ≡ persist_id sc ip rtype moment status id (apart_from_callers t)
unfolding get_hostname select_hostnames
persist_id-apart_from_callers sc ip rtype moment status none t = refl
persist_id-apart_from_callers sc ip rtype moment status (some id) t =
    write_row-apart_from_callers (get_hostname sc t id) ip rtype moment status t

persist_if-apart_from_callers :
    (settled : Bool) (sc : DdnsScope) (ip : Text) (rtype : RecordType) (moment : Instant)
    (status : Status) (id : Option ℕ) (t : Tables)
    → apart_from_callers (if settled then persist_id sc ip rtype moment status id t else t) ≡ (
        if settled
        then persist_id sc ip rtype moment status id (apart_from_callers t)
        else apart_from_callers t)
persist_if-apart_from_callers true sc ip rtype moment status id t =
    persist_id-apart_from_callers sc ip rtype moment status id t
persist_if-apart_from_callers false sc ip rtype moment status id t = refl

persist_result-apart_from_callers :
    (sc : DdnsScope) (ip : Text) (rtype : RecordType) (moment : Instant) (result : HostnameResult)
    (t : Tables)
    → apart_from_callers (persist_result sc ip rtype moment result t)
      ≡ persist_result sc ip rtype moment result (apart_from_callers t)
unfolding persist_result
persist_result-apart_from_callers sc ip rtype moment result t =
    persist_if-apart_from_callers (is_settled result.status) sc ip rtype moment result.status
      result.plan.hostname_id t

pub persist_updates-apart_from_callers :
    (sc : DdnsScope) (results : List HostnameResult) (ip : Text) (rtype : RecordType)
    (moment : Instant) (t : Tables)
    → apart_from_callers (persist_updates sc results ip rtype moment t)
      ≡ persist_updates sc results ip rtype moment (apart_from_callers t)
unfolding persist_updates
persist_updates-apart_from_callers sc [] ip rtype moment t = refl
persist_updates-apart_from_callers sc (result ∷ results) ip rtype moment t =
    persist_updates-apart_from_callers sc results ip rtype moment
      (persist_result sc ip rtype moment result t)
    ∙ ap (persist_updates sc results ip rtype moment)
        (persist_result-apart_from_callers sc ip rtype moment result t)
