-- ===== src/Api/Adopt/Once.antt =====
-- What an adoption does, and who can read of it.
use atrium_ddns.Prelude.{
  ℕ, ◌≡◌, true, false, Option, none, [], ◌∷◌, ◌++◌, is_some, length, map_option,
}
use atrium_ddns.Text.{Text}
use atrium_ddns.Store.{Tables, Domain, Hostname, DnsEvent, Instant, change_hostname}
use atrium_ddns.Scope.{DdnsScope, sees, for_user_id, dns_event, owns_event}
use atrium_ddns.Api.Replies.{refused, replied, conflict}
use atrium_ddns.Api.Publishing.{load_publishing, agrees}
use atrium_ddns.Api.Adopt.{adopt_zone, adopt, adopt_event, auth_for, device_of}

-- An adoption that is taken.
pub record IsAdopted (scope : DdnsScope) (id : ℕ) (t : Tables) (h' : Hostname) (t' : Tables)
    : Type 0 where
  pub h : Hostname
  pub d : Domain
  pub loaded : load_publishing scope t id ≡ replied (h, d)
  pub checked : is_some h.dns_checked_at ≡ true
  pub differed : agrees h ≡ false
  pub row : h' ≡ adopt h
  pub reloaded : load_publishing scope t' id ≡ replied (adopt h, d)
  pub again :
      (repr : Option Text → Text) (logged : ℕ → Instant)
      → adopt_zone repr logged scope id t' ≡ refused conflict
  pub event : DnsEvent
  pub logs : t'.events ≡ t.events ++ event ∷ []
  pub hidden :
      h.device_id ≡ none → (uid : ℕ) → sees (for_user_id uid) dns_event (owns_event event) ≡ false

-- The tables after an adoption.
abbrev pub with_adopted :
    (Option Text → Text) → (ℕ → Instant) → DdnsScope → Hostname → Domain → Tables → Tables
with_adopted repr logged scope h d t = record t {
  hostnames = change_hostname h.id adopt t.hostnames;
  events =
      t.events
      ++ adopt_event repr (logged (length t.events))
          (map_option (auth_for t d) (device_of scope t h.device_id)) h
        ∷ [];
}
