-- ===== src/Nic/Persist/Frame.antt =====
-- What `persist_updates` may change, and what it leaves.
use atrium_ddns.Prelude.{
  ℕ, ◌≡◌, refl, ap, ◌∙◌, Bool, true, false, Option, none, some, List, [], ◌∷◌, All, map, find?,
  filter, ◌==◌, ==_iff, arith, Bool-cases, map_option, inl, inr, find?-some, subst, if◌then◌else◌,
}
use atrium_ddns.Prelude.Int.{ℤ}
use atrium_ddns.Text.{Text}
use atrium_ddns.Address.{RecordType, a, aaaa}
use atrium_ddns.Status.{Status, good, is_settled, is_good}
use atrium_ddns.Store.{Tables, Hostname, Instant, change_hostname}
use atrium_ddns.Scope.{DdnsScope, get_hostname, sees, owns_hostname, hostname, select_hostnames}
use atrium_ddns.Nic.Dns.{HostnameResult}
use atrium_ddns.Nic.Persist.{settle, persist_result, persist_updates, write_row, persist_id}

-- What an update of a family may not change of a row: who it belongs to, its name, its TTL, and the
-- addresses of the other family.
pub record Kept : Type 0 where
  pub id : ℕ
  pub domain_id : ℕ
  pub device_id : Option ℕ
  pub name : Text
  pub ttl : Option ℤ
  pub last_ip : Option Text
  pub dns_ip : Option Text

pub kept : RecordType → Hostname → Kept
kept a h = record {
  id = h.id;
  domain_id = h.domain_id;
  device_id = h.device_id;
  name = h.name;
  ttl = h.ttl;
  last_ip = h.last_ip_v6;
  dns_ip = h.dns_ip_v6;
}
kept aaaa h = record {
  id = h.id;
  domain_id = h.domain_id;
  device_id = h.device_id;
  name = h.name;
  ttl = h.ttl;
  last_ip = h.last_ip_v4;
  dns_ip = h.dns_ip_v4;
}

settle_kept :
    (rtype : RecordType) (ip : Text) (moment : Instant) (status : Status) (h : Hostname)
    → kept rtype (settle rtype ip moment status h) ≡ kept rtype h
unfolding kept settle
settle_kept a ip moment good h = refl
settle_kept a ip moment _ h = refl
settle_kept aaaa ip moment good h = refl
settle_kept aaaa ip moment _ h = refl

change_hostname_kept :
    (rtype : RecordType) (f : Hostname → Hostname) (id : ℕ) (hs : List Hostname)
    → ((h : Hostname) → kept rtype (f h) ≡ kept rtype h)
    → map (kept rtype) (change_hostname id f hs) ≡ map (kept rtype) hs
change_hostname_kept rtype f id [] e = refl
change_hostname_kept rtype f id (h ∷ hs) e = elim (Bool-cases (h.id == id)) [
  | inl c ↦ rw (c, e h, change_hostname_kept rtype f id hs e) refl
  | inr c ↦ rw (c, change_hostname_kept rtype f id hs e) refl
]

-- Only the host names change, and of each only what an update of the family may.
pub record IsUpdate (rtype : RecordType) (t t' : Tables) : Type 0 where
  pub others : t' ≡ record t { hostnames = t'.hostnames }
  pub rows : map (kept rtype) t'.hostnames ≡ map (kept rtype) t.hostnames

write_row_lem :
    (o : Option Hostname) (rtype : RecordType) (ip : Text) (moment : Instant) (status : Status)
    (t : Tables)
    → IsUpdate rtype t (write_row o rtype ip moment status t)
write_row_lem none rtype ip moment status t = record { others = refl; rows = refl }
write_row_lem (some row) rtype ip moment status t = record {
  others = refl;
  rows =
      change_hostname_kept rtype (settle rtype ip moment status) row.id t.hostnames
        (settle_kept rtype ip moment status);
}

persist_id_lem :
    (scope : DdnsScope) (ip : Text) (rtype : RecordType) (moment : Instant) (status : Status)
    (id : Option ℕ) (t : Tables)
    → IsUpdate rtype t (persist_id scope ip rtype moment status id t)
persist_id_lem scope ip rtype moment status none t = record { others = refl; rows = refl }
persist_id_lem scope ip rtype moment status (some id) t =
    write_row_lem (get_hostname scope t id) rtype ip moment status t

persist_result_lem :
    (scope : DdnsScope) (ip : Text) (rtype : RecordType) (moment : Instant)
    (result : HostnameResult) (t : Tables)
    → IsUpdate rtype t (persist_result scope ip rtype moment result t)
unfolding persist_result
persist_result_lem scope ip rtype moment result t = elim (Bool-cases (is_settled result.status)) [
  | inl e ↦
      rw (e, persist_result)
        (persist_id_lem scope ip rtype moment result.status result.plan.hostname_id t)
  | inr e ↦ rw (e, persist_result) (record { others = refl; rows = refl })
]

-- An update of one family changes nothing but host names, and of none its owner, its name, its TTL or
-- an address of the other family.
pub persist_updates-frame :
    (scope : DdnsScope) (results : List HostnameResult) (ip : Text) (rtype : RecordType)
    (moment : Instant) (t : Tables)
    → IsUpdate rtype t (persist_updates scope results ip rtype moment t)
unfolding persist_updates
persist_updates-frame scope [] ip rtype moment t = record { others = refl; rows = refl }
persist_updates-frame scope (result ∷ results) ip rtype moment t =
    let t' = persist_result scope ip rtype moment result t in
    let first = persist_result_lem scope ip rtype moment result t in
    let rest = persist_updates-frame scope results ip rtype moment t' in
    record {
      others =
          rest.others
          ∙ ap
              (λ (s : Tables). record s {
                hostnames = (persist_updates scope results ip rtype moment t').hostnames;
              })
              first.others;
      rows = rest.rows ∙ first.rows;
    }

-- Results that neither published nor found the address there leave every table as it was.
pub persist_updates-unsettled :
    (scope : DdnsScope) (results : List HostnameResult) (ip : Text) (rtype : RecordType)
    (moment : Instant) (t : Tables)
    → All (λ result. is_settled result.status ≡ false) results
    → persist_updates scope results ip rtype moment t ≡ t
unfolding persist_updates persist_result
persist_updates-unsettled scope [] ip rtype moment t h = refl
persist_updates-unsettled scope (result ∷ results) ip rtype moment t h =
    rw (h.0, persist_result) (persist_updates-unsettled scope results ip rtype moment t h.1)

settle_id :
    (rtype : RecordType) (ip : Text) (moment : Instant) (status : Status) (h : Hostname)
    → (settle rtype ip moment status h).id ≡ h.id
unfolding settle
settle_id a ip moment good h = refl
settle_id a ip moment _ h = refl
settle_id aaaa ip moment good h = refl
settle_id aaaa ip moment _ h = refl

-- A changed row is found in place of the old one, if the change keeps what it is found by.
pub find?-change_hostname :
    (p : Hostname → Bool) (f : Hostname → Hostname) (id : ℕ) (hs : List Hostname)
    → ((h : Hostname) → p (f h) ≡ p h)
    → ((h : Hostname) → (f h).id ≡ h.id)
    → find? (λ h. h.id == id) (filter p (change_hostname id f hs))
      ≡ map_option f (find? (λ h. h.id == id) (filter p hs))
find?-change_hostname p f id [] e k = refl
find?-change_hostname p f id (h ∷ hs) e k =
    ground (arith, find?-change_hostname p f id hs e k, e h, k h)

settle_seen :
    (scope : DdnsScope) (t : Tables) (rtype : RecordType) (ip : Text) (moment : Instant)
    (status : Status) (h : Hostname)
    → sees scope hostname (owns_hostname t (settle rtype ip moment status h))
      ≡ sees scope hostname (owns_hostname t h)
unfolding settle
settle_seen scope t a ip moment good h = refl
settle_seen scope t a ip moment _ h = refl
settle_seen scope t aaaa ip moment good h = refl
settle_seen scope t aaaa ip moment _ h = refl

write_row_found :
    (scope : DdnsScope) (rtype : RecordType) (ip : Text) (moment : Instant) (status : Status)
    (t : Tables) (id : ℕ) (o : Option Hostname)
    → get_hostname scope t id ≡ o
    → get_hostname scope (write_row o rtype ip moment status t) id
      ≡ map_option (settle rtype ip moment status) o
unfolding get_hostname select_hostnames
write_row_found scope rtype ip moment status t id none e = e
write_row_found scope rtype ip moment status t id (some row) e =
    let p : Hostname → Bool = λ h. sees scope hostname (owns_hostname t h) in
    let same : row.id ≡ id =
      (==_iff row.id id).0 (find?-some (λ (h : Hostname). h.id == id) (filter p t.hostnames) e).0 in
    let new : Hostname → Hostname = settle rtype ip moment status in
    subst
      (λ (k : ℕ).
        find? (λ h. h.id == k) (filter p t.hostnames) ≡ some row
        → find? (λ h. h.id == k) (filter p (change_hostname row.id new t.hostnames))
          ≡ some (new row))
      same
      (λ e'.
        find?-change_hostname p new row.id t.hostnames (settle_seen scope t rtype ip moment status)
          (λ h. settle_id rtype ip moment status h)
        ∙ ap (map_option new) e')
      e

-- The address of the family that is recorded as published, and what goes with it: the moment of the last
-- publish, the address observed in the zone, and when and how the zone was read.
abbrev pub published_address : RecordType → Hostname → Option Text
published_address a h = h.last_ip_v4
published_address aaaa h = h.last_ip_v6

pub record Observation : Type 0 where
  pub last_updated_at : Option Instant
  pub dns_ip : Option Text
  pub dns_checked_at : Option Instant
  pub dns_check_error : Option Text

abbrev pub observation : RecordType → Hostname → Observation
observation a h = record {
  last_updated_at = h.last_updated_at;
  dns_ip = h.dns_ip_v4;
  dns_checked_at = h.dns_checked_at;
  dns_check_error = h.dns_check_error;
}
observation aaaa h = record {
  last_updated_at = h.last_updated_at;
  dns_ip = h.dns_ip_v6;
  dns_checked_at = h.dns_checked_at;
  dns_check_error = h.dns_check_error;
}

-- Published at that moment, and the zone not read since.
abbrev pub just_published : Instant → Observation
just_published moment = record {
  last_updated_at = some moment;
  dns_ip = none;
  dns_checked_at = none;
  dns_check_error = none;
}

-- A row after a settled result: it has the address; `good` makes it just published, and `nochg` leaves what
-- was observed; and the rest is kept.
pub record IsSettled (rtype : RecordType) (ip : Text) (moment : Instant) (status : Status)
    (h h' : Hostname) : Type 0 where
  pub address : published_address rtype h' ≡ some ip
  pub observed :
      observation rtype h' ≡ (if is_good status then just_published moment else observation rtype h)
  pub rest : kept rtype h' ≡ kept rtype h

settle-IsSettled :
    (rtype : RecordType) (ip : Text) (moment : Instant) (status : Status) (h : Hostname)
    → IsSettled rtype ip moment status h (settle rtype ip moment status h)
unfolding settle kept
settle-IsSettled a ip moment good h = record { address = refl; observed = refl; rest = refl }
settle-IsSettled a ip moment _ h = record { address = refl; observed = refl; rest = refl }
settle-IsSettled aaaa ip moment good h = record { address = refl; observed = refl; rest = refl }
settle-IsSettled aaaa ip moment _ h = record { address = refl; observed = refl; rest = refl }

-- A good or nochg result of a name whose row the scope finds: the row is found again with the address in the
-- column of the family. On good it also has the moment as its last publish and no observation of the zone in
-- that family; on nochg these are as they were. The row's owner, name and TTL and the addresses of the other
-- family are as they were.
pub persist_result-found :
    (scope : DdnsScope) (ip : Text) (rtype : RecordType) (moment : Instant)
    (result : HostnameResult) (t : Tables) (id : ℕ) (h : Hostname)
    → is_settled result.status ≡ true
    → result.plan.hostname_id ≡ some id
    → get_hostname scope t id ≡ some h
    → (h' : Hostname) × (get_hostname scope (persist_result scope ip rtype moment result t) id
        ≡ some h')
      × IsSettled rtype ip moment result.status h h'
unfolding persist_result
persist_result-found scope ip rtype moment result t id h s e found = (
  settle rtype ip moment result.status h,
  rw (s, e, persist_result)
      (write_row_found scope rtype ip moment result.status t id (get_hostname scope t id) refl
        ∙ ap (map_option (settle rtype ip moment result.status)) found),
  settle-IsSettled rtype ip moment result.status h,
)
