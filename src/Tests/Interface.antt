-- ===== src/Tests/Interface.antt =====
-- The tenant's interface on the small installation.
use atrium_ddns.Prelude.{
  ℕ, ◌≡◌, refl, none, some, [], ◌∷◌, inl, inr, ap, any, sym, arith, List, length, ◌∙◌,
}
use atrium_ddns.Text.{codes, text_eq, lower, lower_char, rfind, starts_with}
use atrium_ddns.Zone.{zone_contains}
use atrium_ddns.Store.{Backend, Hostname, DnsEvent}
use atrium_ddns.Status.{good, update}
use atrium_ddns.Scope.{for_user_id, predicate}
use atrium_ddns.Api.Replies.{Database, replied, ◌>>◌, required, refuse_if}
use atrium_ddns.Dict.{keys}
use atrium_ddns.Provider.Account.{str}
use atrium_ddns.Api.Backends.{Shipped, BackendUpdateIn, cleared, update_backend, is_secret_key}
use atrium_ddns.Api.Secrets.Clean.{AllClean, Steps-AllClean}
use atrium_ddns.Api.Hostnames.{HostnameCreateIn, create_hostname, new_hostname}
use atrium_ddns.Api.Sound.{IsSound}
use atrium_ddns.Api.Sound.Steps.{creates_hostname, updates_backend, goes, stays}
use atrium_ddns.Api.Sound.Kept.{Steps-IsSound}
use atrium_ddns.Api.Events.{EventFilters, newest_first, numbered, passes}
use atrium_ddns.Api.Events.Order.{IsDescending}
use atrium_ddns.Api.Events.Paging.{log_of, read_log, read_log-log_of}
use atrium_ddns.Tests.World.{tables, home, zone, binding, registry}

-- Indexes that tell texts apart, and a key that cannot be read.
abbrev database : Database
database = record { same_text = text_eq; encrypt = λ user d. none }

abbrev shipped : Shipped
shipped = record { registry = registry; required_credentials = λ adapter. codes "k" ∷ [] }

abbrev body : HostnameCreateIn
body = record { name = codes "New.x.org"; domain_id = 3; device_id = some 1 }

abbrev created : Hostname
created = new_hostname 11 3 (some 1) (codes "new.x.org")

create_hostname-created :
    create_hostname database (for_user_id 7) 11 body tables
    ≡ replied (created, record tables { hostnames = home ∷ created ∷ [] })
unfolding create_hostname atrium_ddns.Api.Replies.◌>>=◌ atrium_ddns.Api.Replies.◌>>◌ required
    refuse_if for_user_id lower lower_char rfind starts_with
create_hostname-created = refl

tables-IsSound : IsSound tables
unfolding zone_contains lower lower_char rfind starts_with
tables-IsSound = (
  (λ d e m n i. elim m [
    | inl x ↦ elim n [ inl y ↦ x ∙ sym y | inr y ↦ elim y [ ] ]
    | inr x ↦ elim x [ ]
  ]),
  (λ h m. elim m [
    | inl x ↦ (
      zone,
      inl refl,
      ap (λ (h : Hostname). h.domain_id) (sym x),
      ap (λ (h : Hostname). zone_contains zone.name h.name) x,
    )
    | inr x ↦ elim x [ ]
  ]),
)

Steps-IsSound_example : IsSound (record tables { hostnames = home ∷ created ∷ [] })
Steps-IsSound_example =
    Steps-IsSound database shipped tables (record tables { hostnames = home ∷ created ∷ [] })
      (goes (creates_hostname (for_user_id 7) 11 body created create_hostname-created) stays)
      tables-IsSound

-- Three events of one moment, and an older one.
abbrev event_at : ℕ → DnsEvent
event_at at = record {
  created_at = at;
  user_id = some 7;
  device_id = none;
  domain_id = none;
  hostname_id = none;
  user_email = none;
  device_name = none;
  domain_name = none;
  hostname = none;
  event_type = update;
  response_code = some good;
  client_ip = none;
  ip = none;
  backend_type = none;
  message = none;
}

abbrev events : List DnsEvent
events = event_at 5 ∷ event_at 3 ∷ event_at 5 ∷ event_at 5 ∷ []

abbrev updates : EventFilters
updates = record {
  user_id = none;
  device_id = none;
  domain_id = none;
  hostname_id = none;
  event_type = some (codes "update");
  response_code = none;
  backend_type = some (codes "__none__");
  client_ip = none;
  since = none;
  until = none;
}

four_rows : length (log_of text_eq (for_user_id 7) updates events) ≡ 4
unfolding log_of newest_first numbered predicate for_user_id passes
four_rows = refl

read_log-log_of_example :
    (read_log text_eq (for_user_id 7) updates 2 events 5 none
      ≡ log_of text_eq (for_user_id 7) updates events)
    × IsDescending (log_of text_eq (for_user_id 7) updates events)
read_log-log_of_example =
    read_log-log_of text_eq (for_user_id 7) updates 2 5 events refl (omega arith)
      (omega (arith, four_rows))

-- A binding that gets a server and loses its credentials.
abbrev change : BackendUpdateIn
change = record { config = some ((codes "server", str (codes "ns")) ∷ []); credentials = cleared }

abbrev changed : Backend
changed = record binding { config = (codes "server", str (codes "ns")) ∷ []; credentials_ct = none }

update_backend-changed :
    update_backend database shipped (for_user_id 7) 5 change tables
    ≡ replied (changed, record tables { backends = changed ∷ [] })
unfolding update_backend atrium_ddns.Api.Replies.◌>>=◌ required for_user_id
    atrium_ddns.Api.Replies.◌>>◌ refuse_if
update_backend-changed = refl

tables-AllClean : AllClean shipped tables
unfolding is_secret_key
tables-AllClean b m = elim m [
  | inl e ↦ ap (λ (x : Backend). any (is_secret_key shipped) (keys x.config)) e
  | inr e ↦ elim e [ ]
]

Steps-AllClean_example : AllClean shipped (record tables { backends = changed ∷ [] })
Steps-AllClean_example =
    Steps-AllClean database shipped tables (record tables { backends = changed ∷ [] })
      (goes (updates_backend (for_user_id 7) 5 change changed update_backend-changed) stays)
      tables-AllClean
