-- ===== src/Tests/Jobs.antt =====
-- The background jobs on a small installation.
use atrium_ddns.Prelude.{
  ◌≡◌, refl, true, false, none, some, [], ◌∷◌, inl, inr, length, filter, All, ◌≤◌, arith, Bool,
  List, ap, ◌+◌, ◌↔◌, leb, Option, ℕ,
}
use atrium_ddns.Text.{codes}
use atrium_ddns.Address.{a, aaaa}
use atrium_ddns.Store.{Tables, Hostname, Instant, RateLimitEvent, Device, DnsEvent}
use atrium_ddns.Scope.{for_user_id, select_hostnames, predicate, reaches_all_tenants}
use atrium_ddns.Worker.Checks.{Resolved, answered, nxdomain, ok, missing, error}
use atrium_ddns.Worker.Config.{DdnsConfig}
use atrium_ddns.Worker.Summary.{HealthCheckSummary, is_consistent}
use atrium_ddns.Worker.Health.{
  Others, Resolve, JobClock, not_later, due_rows, order_due, insert_due, staleness,
}
use atrium_ddns.Worker.Health.Order.{fetch_due-IsOldest}
use atrium_ddns.Worker.Sweep.{run_health_checks}
use atrium_ddns.Worker.Sweep.Consistent.{run_health_checks-is_consistent}
use atrium_ddns.Worker.Sweep.Frame.{forget_checks, undisturbed, run_health_checks-frame}
use atrium_ddns.Worker.Clear.{clear_health_check_results, has_result}
use atrium_ddns.Worker.Clear.Result.{hidden_hostnames, clear_health_check_results-clears}
use atrium_ddns.Worker.Prune.{prune_table}
use atrium_ddns.Worker.Prune.Batches.{at_most, old_count, others}
use atrium_ddns.Worker.Prune.Runs.{prune_table_lem, prune_runs, prune_runs-finishes}
use atrium_ddns.Worker.Checks.Verdicts.{
  verdict_on, is_measured, answers_of, Confirms, IsUnreadable, verdict_on_lem,
}
use atrium_ddns.Worker.Devices.{device_status, render_updates}
use atrium_ddns.Worker.Devices.{select_events}
use atrium_ddns.Worker.Devices.Log.{IsNewestCode, IsTotal, IsSuccess}
use atrium_ddns.Status.{Status, EventType, update, auth, good, badauth}
use atrium_ddns.Worker.Devices.Board.{IsShown, device_status-IsShown}
use atrium_ddns.Worker.Summary.{idle}
use atrium_ddns.Tests.World.{tables, home, box}

abbrev settings : DdnsConfig
settings = record {
  event_retention_days = 30;
  rate_limit_event_retention_hours = 24;
  prune_batch_size = 2;
  prune_max_batches = 2;
  health_check_enabled = true;
  health_check_interval_minutes = 15;
  health_check_batch_size = 1;
  health_check_publish_grace_seconds = 120;
  health_check_concurrency = 8;
  health_check_manual_cooldown_seconds = 60;
  device_idle_window_days = 7;
  rate_limit_per_minute = 30;
  dns_resolvers = codes "192.0.2.53" ∷ [];
}

-- A second name, which was never checked.
abbrev fresh : Hostname
fresh = record home {
  id = 10;
  name = codes "f.x.org";
  last_ip_v4 = some (codes "192.0.2.9");
  last_ip_v6 = none;
  dns_checked_at = none;
}

abbrev two_names : Tables
two_names = record tables { hostnames = home ∷ fresh ∷ [] }

abbrev moments : JobClock
moments = record { started = 10000000000; checked = 10000000001; viewed = 10000000002 }

-- The zone still has the IPv6 address, spelled out, and no other record.
abbrev zone_answers : Resolve
zone_answers name a = nxdomain
zone_answers name aaaa = answered (codes "0:0:0:0:0:0:0:1" ∷ [])

-- The other transactions drop every name while the run writes.
abbrev intruding : Others
intruding = record undisturbed { before_row = λ h t. record t { hostnames = [] } }

run_health_checks-is_consistent_example :
    (s : HealthCheckSummary) × ((run_health_checks settings
        (for_user_id 7)
        true
        moments
        intruding
        zone_answers
        two_names).0
      ≡ some s)
    × (is_consistent s ≡ true)
run_health_checks-is_consistent_example =
    run_health_checks-is_consistent settings (for_user_id 7) true moments intruding zone_answers
      two_names

run_health_checks-frame_example :
    forget_checks
      (run_health_checks settings (for_user_id 7) true moments undisturbed zone_answers two_names).1
    ≡ forget_checks two_names
run_health_checks-frame_example =
    run_health_checks-frame settings (for_user_id 7) true moments zone_answers two_names

fetch_due-IsOldest_example : not_later fresh.dns_checked_at home.dns_checked_at ≡ true
unfolding due_rows order_due insert_due staleness select_hostnames for_user_id predicate
    reaches_all_tenants
fetch_due-IsOldest_example =
    fetch_due-IsOldest true settings (for_user_id 7) 10000000000 two_names fresh home (inl refl)
      (inr (inl refl))
      (λ m. elim m [
        | inl e ↦ absurd (cc (ap (λ (h : Hostname). h.dns_checked_at) e))
        | inr i ↦ elim i [ ]
      ])

-- The same address, spelled in full.
abbrev spelled : Resolved
spelled = answered (codes "0:0:0:0:0:0:0:1" ∷ [])

verdict_on_lem_example :
    ((verdict_on (codes "::1") spelled ≡ error) ↔ (is_measured spelled ≡ false))
    × ((verdict_on (codes "::1") spelled ≡ ok) ↔ Confirms (codes "::1") (answers_of spelled))
    × ((verdict_on (codes "::1") spelled ≡ missing)
        ↔ ((is_measured spelled ≡ true) × All IsUnreadable (answers_of spelled)))
verdict_on_lem_example = verdict_on_lem (codes "::1") spelled

clear_health_check_results-clears_example :
    let after = clear_health_check_results (for_user_id 7) two_names in
    ((clear_health_check_results (for_user_id 7) after.1).0.cleared ≡ 0)
    × (after.0.cleared ≡ length (filter has_result (select_hostnames (for_user_id 7) two_names)))
    × (after.0.in_scope ≡ length (select_hostnames (for_user_id 7) two_names))
    × (hidden_hostnames (for_user_id 7) after.1 ≡ hidden_hostnames (for_user_id 7) two_names)
clear_health_check_results-clears_example =
    clear_health_check_results-clears (for_user_id 7) two_names

-- An update of the device that was good, and a later request of it that was refused.
abbrev logged : EventType → Status → DnsEvent
logged event_type code = record {
  created_at = 5;
  user_id = some 7;
  device_id = some 1;
  domain_id = none;
  hostname_id = none;
  user_email = none;
  device_name = none;
  domain_name = none;
  hostname = none;
  event_type = event_type;
  response_code = some code;
  client_ip = none;
  ip = none;
  backend_type = none;
  message = none;
}

abbrev busy : Tables
busy = record two_names { events = logged update good ∷ logged auth badauth ∷ [] }

abbrev seen_box : Device
seen_box = record box { last_seen_at = some 5 }

failed_last :
    render_updates (device_status (for_user_id 7) busy 10000000000 7 seen_box) ≡ codes "error"
unfolding render_updates device_status for_user_id predicate
failed_last = refl

device_status-IsShown_example :
    let s = device_status (for_user_id 7) busy 10000000000 7 seen_box in
    (code : Option Status) × (n : ℕ) × IsNewestCode 1 (select_events (for_user_id 7) busy) code
    × IsTotal (IsSuccess 10000000000 7 1) (select_events (for_user_id 7) busy) n
    × IsShown (some 5) code n s.liveness (render_updates s)
    × ((render_updates s ≡ codes "0") ↔ (s.liveness ≡ idle))
device_status-IsShown_example = device_status-IsShown (for_user_id 7) busy 10000000000 7 seen_box

-- Five requests of one device, the fourth the oldest.
abbrev requests : List RateLimitEvent
requests =
    record { device_id = 1; created_at = 40 }
    ∷ record { device_id = 1; created_at = 20 }
    ∷ record { device_id = 1; created_at = 30 }
    ∷ record { device_id = 1; created_at = 10 }
    ∷ record { device_id = 1; created_at = 50 }
    ∷ []

abbrev made : RateLimitEvent → Instant
made e = e.created_at

abbrev everywhere : RateLimitEvent → Bool
everywhere e = true

-- Two batches of two rows take all that were made before 45, and the summary says `truncated`.
truncated_for_nothing :
    ((prune_table made everywhere 45 2 2 requests).0.truncated ≡ true)
    × (old_count made everywhere 45 (prune_table made everywhere 45 2 2 requests).1 ≡ 0)
unfolding prune_table
truncated_for_nothing = (refl, refl)

prune_table_lem_example :
    let (s, rows) = prune_table made everywhere 45 1 2 requests in
    (s.deleted ≡ at_most 2 (old_count made everywhere 45 requests))
    × (old_count made everywhere 45 rows + s.deleted ≡ old_count made everywhere 45 requests)
    × (others made everywhere 45 rows ≡ others made everywhere 45 requests)
    × (s.kept + s.deleted ≡ length (filter everywhere requests))
    × (s.batches ≤ 2)
    × (s.truncated ≡ leb 2 (old_count made everywhere 45 requests))
prune_table_lem_example = prune_table_lem made everywhere 45 1 2 requests (omega arith)

prune_runs-finishes_example :
    old_count made everywhere 45 (prune_runs made everywhere 45 1 2 3 requests) ≡ 0
prune_runs-finishes_example =
    prune_runs-finishes made everywhere 45 1 2 3 requests (omega arith) (omega arith)
