-- ===== src/Worker/Sweep.antt =====
-- What `run_health_checks` writes and counts for the names that it checked, and the run itself
-- (backend/src/atrium_ddns/worker_jobs.py).
pub mod Balance
pub mod Totals
pub mod Consistent
pub mod Frame
use atrium_ddns.Prelude.{
  ℕ, suc, Bool, true, false, not, Option, none, some, List, [], ◌∷◌, ◌++◌, map, take, ◌==◌, ◌&&◌,
  if◌then◌else◌, ◌>>=◌, length,
}
use atrium_ddns.Text.{Text, codes}
use atrium_ddns.Address.{RecordType, a, aaaa}
use atrium_ddns.Store.{Tables, Hostname, Instant}
use atrium_ddns.Scope.{DdnsScope, sees, predicate, hostname, owns_hostname, select_hostnames}
use atrium_ddns.Worker.Checks.{
  DnsCheckStatus, ok, mismatch, missing, error, never_checked, same_status, stored_dns_status,
  worst, canonical_address, canonical_answers, join_spaced, wanted,
}
use atrium_ddns.Worker.Config.{DdnsConfig}
use atrium_ddns.Worker.Summary.{
  HealthCheckSummary, empty_summary, assert_consistent, count_record, count_device,
}
use atrium_ddns.Worker.Devices.{DeviceStatus, device_statuses}
use atrium_ddns.Worker.Health.{
  Resolve, Others, JobClock, RecordCheck, has_text, count_population, fetch_due, reconcile,
  check_hostname,
}
use atrium_ddns.Worker.Write.{aggregate_of, set_check, stored_status}

-- `UPDATE hostname … WHERE p`, through the scope.
abbrev pub change_rows : (Hostname → Bool) → (Hostname → Hostname) → List Hostname → List Hostname
change_rows p f [] = []
change_rows p f (h ∷ hs) = (if p h then f h else h) ∷ change_rows p f hs

unfoldable pub update_hostnames :
    DdnsScope → (Hostname → Bool) → (Hostname → Hostname) → Tables → Tables
unfolding predicate
update_hostnames scope p f t = record t {
  hostnames = change_rows (λ h. p h && sees scope hostname (owns_hostname t h)) f t.hostnames;
}

unfoldable pub count_records : List RecordCheck → HealthCheckSummary → Option HealthCheckSummary
count_records [] s = some s
count_records (r ∷ rs) s = do s' ← count_record r.status s; count_records rs s'

abbrev pub count_transition : Hostname → List RecordCheck → HealthCheckSummary → HealthCheckSummary
count_transition h results s =
    if same_status (aggregate_of results) (stored_status h)
    then s
    else record s { transitions = suc s.transitions }

-- One name: what is counted, and what is written.
unfoldable pub settle_name :
    DdnsScope
    → Instant
    → Hostname
    → List RecordCheck
    → HealthCheckSummary × Tables
    → Option (HealthCheckSummary × Tables)
unfolding count_records stored_status set_check update_hostnames
settle_name scope now h [] (s, t) = some (s, t)
settle_name scope now h (r ∷ rs) (s, t) = do
  s' ← count_records (r ∷ rs) (record s { hostnames_checked = suc s.hostnames_checked })
  some (
    count_transition h (r ∷ rs) s',
    update_hostnames scope (λ x. x.id == h.id) (set_check now (r ∷ rs)) t,
  )

-- Others may commit before each write.
unfoldable pub settle_names :
    DdnsScope
    → Instant
    → (Hostname → Tables → Tables)
    → Resolve
    → List Hostname
    → HealthCheckSummary × Tables
    → Option (HealthCheckSummary × Tables)
unfolding settle_name check_hostname
settle_names scope now before_row resolve [] st = some st
settle_names scope now before_row resolve (h ∷ hs) (s, t) = do
  st' ← settle_name scope now h (check_hostname resolve h) (s, before_row h t)
  settle_names scope now before_row resolve hs st'

unfoldable pub count_devices : List DeviceStatus → HealthCheckSummary → HealthCheckSummary
count_devices [] s = s
count_devices (d ∷ ds) s = count_devices ds (count_device d.liveness s)

abbrev pub with_devices : List DeviceStatus → HealthCheckSummary → HealthCheckSummary
with_devices statuses s = count_devices statuses (record s { devices = length statuses })

-- The summary before the names are checked, and the batch.
unfoldable pub start_summary : DdnsConfig → DdnsScope → Bool → Instant → Tables → HealthCheckSummary
unfolding count_population select_hostnames
start_summary c scope due_only now t =
    count_population due_only c now (select_hostnames scope t) (record empty_summary {
      enabled = c.health_check_enabled;
      window_days = c.device_idle_window_days;
      batch_size = c.health_check_batch_size;
      forced = not due_only;
    })

-- The end of a run, from what the transaction of the writes came to.
-- When that raised, the tables are those before the writes, without what others committed in between.
abbrev pub finish :
    DdnsConfig
    → DdnsScope
    → Instant
    → (Tables → Tables)
    → Tables
    → Option (HealthCheckSummary × Tables)
    → Option HealthCheckSummary × Tables
finish c scope now before_view rolled_back none = (none, rolled_back)
finish c scope now before_view rolled_back (some (s, t)) = (
  assert_consistent
      (with_devices (device_statuses scope (before_view t) now c.device_idle_window_days) s),
  before_view t,
)

abbrev pub check_batch :
    DdnsConfig
    → DdnsScope
    → JobClock
    → Others
    → Resolve
    → List Hostname
    → HealthCheckSummary
    → Tables
    → Option HealthCheckSummary × Tables
check_batch c scope clock others resolve [] s t = (assert_consistent s, t)
check_batch c scope clock others resolve (h ∷ hs) s t =
    finish c scope clock.viewed others.before_view (others.before_write t) (
      settle_names scope clock.checked others.before_row resolve (h ∷ hs)
        (s, others.before_write t))

abbrev pub fetch_batch :
    DdnsConfig
    → DdnsScope
    → JobClock
    → Others
    → Resolve
    → List Hostname
    → HealthCheckSummary
    → Tables
    → Option HealthCheckSummary × Tables
fetch_batch c scope clock others resolve fetched s t =
    check_batch c scope clock others resolve (take c.health_check_batch_size fetched)
      (reconcile c fetched s) t

-- The summary, `none` for an `AssertionError`, and the tables at the end.
unfoldable pub run_health_checks :
    DdnsConfig
    → DdnsScope
    → Bool
    → JobClock
    → Others
    → Resolve
    → Tables
    → Option HealthCheckSummary × Tables
unfolding start_summary reconcile settle_names count_devices assert_consistent
run_health_checks c scope due_only clock others resolve t =
    if c.health_check_enabled
    then fetch_batch c scope clock others resolve
        (fetch_due due_only c scope clock.started (others.before_fetch t))
        (start_summary c scope due_only clock.started t) (others.before_fetch t)
    else (
      some (record empty_summary {
        enabled = false;
        window_days = c.device_idle_window_days;
        batch_size = c.health_check_batch_size;
        forced = not due_only;
      }),
      t,
    )
