-- ===== src/Worker/Summary.antt =====
-- `HealthCheckSummary` and its `assert_consistent` (backend/src/atrium_ddns/worker_jobs.py).
use atrium_ddns.Prelude.{
  ℕ, suc, ◌+◌, Bool, true, false, ◌&&◌, Option, none, some, ◌==◌, if◌then◌else◌,
}
use atrium_ddns.Prelude.Int.{ℤ, pos, add_ℤ, eq_ℤ}
use atrium_ddns.Worker.Checks.{DnsCheckStatus, ok, mismatch, missing, error, never_checked}

pub data Liveness : Type 0 where
  never_seen last_call_failed idle active : Liveness

pub record HealthCheckSummary : Type 0 where
  pub enabled : Bool
  pub hostnames_considered : ℕ
  pub hostnames_never_written : ℕ
  pub hostnames_not_due : ℕ
  pub hostnames_due : ℕ
  pub hostnames_checked : ℕ
  pub hostnames_deferred : ℕ
  pub hostnames_moved : ℤ
  pub forced : Bool
  pub records_checked : ℕ
  pub ok_count : ℕ
  pub mismatch_count : ℕ
  pub missing_count : ℕ
  pub error_count : ℕ
  pub transitions : ℕ
  pub devices : ℕ
  pub devices_never_seen : ℕ
  pub devices_last_call_failed : ℕ
  pub devices_idle : ℕ
  pub devices_active : ℕ
  pub window_days : ℕ
  pub batch_size : ℕ
  pub truncated : Bool

-- The defaults of the fields.
abbrev pub empty_summary : HealthCheckSummary
empty_summary = record {
  enabled = true;
  hostnames_considered = 0;
  hostnames_never_written = 0;
  hostnames_not_due = 0;
  hostnames_due = 0;
  hostnames_checked = 0;
  hostnames_deferred = 0;
  hostnames_moved = pos 0;
  forced = false;
  records_checked = 0;
  ok_count = 0;
  mismatch_count = 0;
  missing_count = 0;
  error_count = 0;
  transitions = 0;
  devices = 0;
  devices_never_seen = 0;
  devices_last_call_failed = 0;
  devices_idle = 0;
  devices_active = 0;
  window_days = 0;
  batch_size = 0;
  truncated = false;
}

abbrev pub records_balance : HealthCheckSummary → Bool
records_balance s =
    s.ok_count + s.mismatch_count + s.missing_count + s.error_count == s.records_checked

abbrev pub population_balances : HealthCheckSummary → Bool
population_balances s =
    s.hostnames_never_written + s.hostnames_not_due + s.hostnames_due == s.hostnames_considered

abbrev pub due_balances : HealthCheckSummary → Bool
due_balances s =
    eq_ℤ (add_ℤ (pos (s.hostnames_checked + s.hostnames_deferred)) s.hostnames_moved)
      (pos s.hostnames_due)

abbrev pub liveness_balances : HealthCheckSummary → Bool
liveness_balances s =
    s.devices_never_seen + s.devices_last_call_failed + s.devices_idle + s.devices_active
    == s.devices

-- Whether none of the four tests raises.
unfoldable pub is_consistent : HealthCheckSummary → Bool
is_consistent s =
    records_balance s && population_balances s && due_balances s && liveness_balances s

-- `assert_consistent`; `none` is the `AssertionError`.
unfoldable pub assert_consistent : HealthCheckSummary → Option HealthCheckSummary
unfolding is_consistent
assert_consistent s = if is_consistent s then some s else none

-- The count of a record's status. A record was checked, so its status is never `never_checked`: there the
-- code raises, which is `none`.
abbrev pub count_record : DnsCheckStatus → HealthCheckSummary → Option HealthCheckSummary
count_record ok s =
    some (record s { records_checked = suc s.records_checked; ok_count = suc s.ok_count })
count_record mismatch s =
    some
      (record s { records_checked = suc s.records_checked; mismatch_count = suc s.mismatch_count })
count_record missing s =
    some (record s { records_checked = suc s.records_checked; missing_count = suc s.missing_count })
count_record error s =
    some (record s { records_checked = suc s.records_checked; error_count = suc s.error_count })
count_record never_checked s = none

-- The count of a device's state.
abbrev pub count_device : Liveness → HealthCheckSummary → HealthCheckSummary
count_device never_seen s = record s { devices_never_seen = suc s.devices_never_seen }
count_device last_call_failed s = record s {
  devices_last_call_failed = suc s.devices_last_call_failed;
}
count_device idle s = record s { devices_idle = suc s.devices_idle }
count_device active s = record s { devices_active = suc s.devices_active }
