-- ===== src/Worker/Health.antt =====
-- `run_health_checks` (backend/src/atrium_ddns/worker_jobs.py). What others commit in the course of it is a
-- parameter (`Others`).
pub mod Order
use atrium_ddns.Prelude.{
  ℕ, suc, ◌+◌, ◌-◌, ◌*◌, Bool, true, false, ◌&&◌, ◌||◌, not, Option, none, some, List, [], ◌∷◌,
  ◌++◌, map, filter, length, take, leb, ltb, ◌==◌, if◌then◌else◌, ◌>>=◌,
}
use atrium_ddns.Prelude.Int.{sub_ℕ}
use atrium_ddns.Text.{Text, codes, is_empty}
use atrium_ddns.Address.{RecordType, a, aaaa}
use atrium_ddns.Store.{Tables, Hostname, Instant}
use atrium_ddns.Scope.{DdnsScope, sees, predicate, hostname, owns_hostname, select_hostnames}
use atrium_ddns.Worker.Checks.{
  DnsCheckStatus, never_checked, ok, mismatch, missing, error, same_status, Resolved, resolve_one,
  classify_record, stored_dns_status, worst, canonical_address, canonical_answers, join_spaced,
  wanted,
}
use atrium_ddns.Worker.Config.{DdnsConfig}
use atrium_ddns.Worker.Summary.{
  HealthCheckSummary, empty_summary, assert_consistent, count_record, count_device,
}
use atrium_ddns.Worker.Devices.{DeviceStatus, device_statuses}

-- The answers of the resolver in this run: a name is unique, so each question is asked once.
abbrev pub Resolve : Type 0
Resolve = Text → RecordType → Resolved

-- What other transactions commit before the fetch, before the writes, before the write of each name and
-- before the devices are read. The count comes first, and the readings of the devices share a snapshot.
pub record Others : Type 0 where
  pub before_fetch : Tables → Tables
  pub before_write : Tables → Tables
  pub before_row : Hostname → Tables → Tables
  pub before_view : Tables → Tables

-- The three readings of the clock.
pub record JobClock : Type 0 where
  pub started : Instant
  pub checked : Instant
  pub viewed : Instant

-- `COALESCE(ip, '') != ''`, which is also `if ip`.
abbrev pub has_text : Option Text → Bool
has_text none = false
has_text (some ip) = not (is_empty ip)

abbrev pub has_last_ip : Hostname → Bool
has_last_ip h = has_text h.last_ip_v4 || has_text h.last_ip_v6

-- `column < now - age` and `column > now - age`, where the column is not NULL.
abbrev older_than : ℕ → Instant → Option Instant → Bool
older_than age now none = false
older_than age now (some at) = ltb (at + age) now

abbrev younger_than : ℕ → Instant → Option Instant → Bool
younger_than age now none = false
younger_than age now (some at) = ltb now (at + age)

abbrev is_null : Option Instant → Bool
is_null none = true
is_null (some _) = false

abbrev published_within_grace : DdnsConfig → Instant → Hostname → Bool
published_within_grace c now h =
    younger_than (c.health_check_publish_grace_seconds * 1000000) now h.last_updated_at

unfoldable pub staleness : Bool → DdnsConfig → Instant → Hostname → Bool
staleness due_only c now h =
    if due_only
    then (is_null h.dns_checked_at
        || older_than (c.health_check_interval_minutes * 60000000) now h.dns_checked_at)
      && not (published_within_grace c now h)
    else true

abbrev pub is_due : Bool → DdnsConfig → Instant → Hostname → Bool
is_due due_only c now h = has_last_ip h && staleness due_only c now h

abbrev pub count : (Hostname → Bool) → List Hostname → ℕ
count p rows = length (filter p rows)

-- The one statement that counts the population and its three parts.
unfoldable pub count_population :
    Bool → DdnsConfig → Instant → List Hostname → HealthCheckSummary → HealthCheckSummary
unfolding staleness
count_population due_only c now rows s = record s {
  hostnames_considered = length rows;
  hostnames_never_written = count (λ h. not (has_last_ip h)) rows;
  hostnames_due = count (is_due due_only c now) rows;
  hostnames_not_due = count (λ h. has_last_ip h && not (staleness due_only c now h)) rows;
}

-- `ORDER BY dns_checked_at IS NULL DESC, dns_checked_at`: NULLs first.
abbrev pub not_later : Option Instant → Option Instant → Bool
not_later none _ = true
not_later (some x) none = false
not_later (some x) (some y) = leb x y

unfoldable pub insert_due : Hostname → List Hostname → List Hostname
insert_due h [] = h ∷ []
insert_due h (x ∷ xs) =
    if not_later h.dns_checked_at x.dns_checked_at then h ∷ x ∷ xs else x ∷ insert_due h xs

unfoldable pub order_due : List Hostname → List Hostname
unfolding insert_due
order_due [] = []
order_due (h ∷ hs) = insert_due h (order_due hs)

unfoldable pub due_rows : Bool → DdnsConfig → DdnsScope → Instant → Tables → List Hostname
unfolding staleness order_due select_hostnames
due_rows due_only c scope now t =
    order_due (filter (is_due due_only c now) (select_hostnames scope t))

-- The fetch asks for one row more than the batch.
abbrev pub fetch_due : Bool → DdnsConfig → DdnsScope → Instant → Tables → List Hostname
fetch_due due_only c scope now t =
    take (suc c.health_check_batch_size) (due_rows due_only c scope now t)

abbrev pub smaller : ℕ → ℕ → ℕ
smaller x y = if leb x y then x else y

-- The fetch against the count.
unfoldable pub reconcile : DdnsConfig → List Hostname → HealthCheckSummary → HealthCheckSummary
reconcile c fetched s =
    let expected = smaller s.hostnames_due c.health_check_batch_size in
    record s {
      truncated = ltb c.health_check_batch_size (length fetched);
      hostnames_deferred = s.hostnames_due - expected;
      hostnames_moved = sub_ℕ expected (length (take c.health_check_batch_size fetched));
    }

pub record RecordCheck : Type 0 where
  pub hostname_id : ℕ
  pub name : Text
  pub rdtype : RecordType
  pub expected : Text
  pub answers : List Text
  pub status : DnsCheckStatus
  pub detail : Option Text

-- `tuple(answered or ())`.
abbrev or_no_answers : Option (List Text) → List Text
or_no_answers none = []
or_no_answers (some answers) = answers

unfoldable pub check_record : Resolve → Hostname → RecordType → Text → RecordCheck
unfolding resolve_one classify_record
check_record resolve h rdtype expected =
    let measured = resolve_one (resolve h.name rdtype) in
    let verdict = classify_record expected measured.0 measured.1 in
    record {
      hostname_id = h.id;
      name = h.name;
      rdtype = rdtype;
      expected = expected;
      answers = or_no_answers measured.0;
      status = verdict.status;
      detail = verdict.detail;
    }

-- A family is passed over without a last address.
abbrev pub check_family : Resolve → Hostname → RecordType → Option Text → List RecordCheck
check_family resolve h rdtype none = []
check_family resolve h rdtype (some ip) =
    if is_empty ip then [] else check_record resolve h rdtype ip ∷ []

unfoldable pub check_hostname : Resolve → Hostname → List RecordCheck
unfolding check_record
check_hostname resolve h =
    check_family resolve h a h.last_ip_v4 ++ check_family resolve h aaaa h.last_ip_v6
