-- ===== src/Worker/Sweep/Consistent.antt =====
-- That `assert_consistent` does not fire in `run_health_checks`.
use atrium_ddns.Prelude.{
  ℕ, ◌+◌, ◌≡◌, inl, inr, refl, sym, ap, ◌∙◌, Bool, true, Option, some, List, [], ◌∷◌, All, ==_iff,
  Bool-cases, arith, length, take, if_true, if_false,
}
use atrium_ddns.Prelude.Int.{pos, add_ℤ, eq_ℤ}
use atrium_ddns.Store.{Tables, Hostname, Instant}
use atrium_ddns.Scope.{DdnsScope, select_hostnames}
use atrium_ddns.Worker.Config.{DdnsConfig}
use atrium_ddns.Worker.Summary.{
  HealthCheckSummary, assert_consistent, is_consistent, records_balance, population_balances,
  due_balances, liveness_balances,
}
use atrium_ddns.Worker.Devices.{device_statuses}
use atrium_ddns.Worker.Health.{
  Resolve, Others, JobClock, has_last_ip, staleness, count_population, fetch_due, reconcile,
}
use atrium_ddns.Worker.Sweep.{
  settle_names, with_devices, start_summary, check_batch, run_health_checks, finish,
}
use atrium_ddns.Worker.Sweep.Balance.{Progress, IsTallied, settle_names-Progress}
use atrium_ddns.Worker.Sweep.Totals.{
  count_partition, due_count, batch-has_last_ip, apart_from_devices, with_devices-sum,
}

abbrev due_with : ℕ → HealthCheckSummary → Bool
due_with n s = eq_ℤ (add_ℤ (pos (n + s.hostnames_deferred)) s.hostnames_moved) (pos s.hostnames_due)

-- The four balances at the end, from those of the start.
ends_consistent :
    (n : ℕ) (s0 s1 s2 : HealthCheckSummary)
    → Progress n s0 s1
    → apart_from_devices s2 ≡ apart_from_devices s1
    → s2.devices_never_seen + s2.devices_last_call_failed + s2.devices_idle + s2.devices_active
      ≡ s2.devices
    → population_balances s0 ≡ true
    → s0.hostnames_checked ≡ 0
    → due_with n s0 ≡ true
    → is_consistent s2 ≡ true
unfolding is_consistent
ends_consistent n s0 s1 s2 p e devices_sum population unchecked due =
    let checked : s2.hostnames_checked ≡ n =
      omega (arith, ap (λ s. s.hostnames_checked) e, p.1, unchecked) in
    let tallied : records_balance s2 ≡ true =
      ap (λ s. records_balance s) e ∙ (==_iff _ s1.records_checked).1 p.2 in
    let people : population_balances s2 ≡ true =
      ap (λ s. population_balances s) e ∙ ap (λ s. population_balances s) p.0 ∙ population in
    let dues : due_balances s2 ≡ true =
      ap (λ k. due_with k s2) checked
      ∙ ap (λ s. due_with n s) e
      ∙ ap (λ s. due_with n s) p.0
      ∙ due in
    let lives : liveness_balances s2 ≡ true = (==_iff _ s2.devices).1 devices_sum in
    rw (tallied, people, dues, lives) refl

assert_consistent-some :
    (s : HealthCheckSummary) → is_consistent s ≡ true → assert_consistent s ≡ some s
unfolding assert_consistent
assert_consistent-some s h = rw h refl

-- The summary once the batch is known.
abbrev begun : DdnsConfig → DdnsScope → Bool → Instant → List Hostname → Tables → HealthCheckSummary
begun c scope due_only now fetched t = reconcile c fetched (start_summary c scope due_only now t)

begun-balances :
    (c : DdnsConfig) (scope : DdnsScope) (due_only : Bool) (now : Instant) (fetched : List Hostname)
    (t : Tables)
    → (population_balances (begun c scope due_only now fetched t) ≡ true)
      × (due_with
            (length (take c.health_check_batch_size fetched))
            (begun c scope due_only now fetched t)
          ≡ true)
unfolding reconcile start_summary count_population
begun-balances c scope due_only now fetched t =
    let rows = select_hostnames scope t in
    let s = begun c scope due_only now fetched t in
    (
      (==_iff _ s.hostnames_considered).1
          (count_partition (λ h. has_last_ip h) (staleness due_only c now) rows),
      due_count s.hostnames_due c.health_check_batch_size
          (length (take c.health_check_batch_size fetched)),
    )

begun-unchecked :
    (c : DdnsConfig) (scope : DdnsScope) (due_only : Bool) (now : Instant) (fetched : List Hostname)
    (t : Tables)
    → let s = begun c scope due_only now fetched t in
      (s.hostnames_checked ≡ 0) × IsTallied s × (apart_from_devices s ≡ s)
unfolding reconcile start_summary count_population
begun-unchecked c scope due_only now fetched t = (refl, refl, refl)

-- A batch with names in it, and what the others do before its end.
finish-consistent :
    (c : DdnsConfig) (scope : DdnsScope) (clock : JobClock) (others : Others) (resolve : Resolve)
    (batch : List Hostname) (s : HealthCheckSummary) (t : Tables)
    → All (λ h. has_last_ip h ≡ true) batch
    → population_balances s ≡ true
    → due_with (length batch) s ≡ true
    → (s.hostnames_checked ≡ 0) × IsTallied s × (apart_from_devices s ≡ s)
    → (s' : HealthCheckSummary) × ((finish c scope clock.viewed others.before_view t
          (settle_names scope clock.checked others.before_row resolve batch (s, t))).0
        ≡ some s')
      × (is_consistent s' ≡ true)
finish-consistent c scope clock others resolve batch s t l population due fresh =
    let (s1, t1, e, p) =
      settle_names-Progress scope clock.checked others.before_row resolve batch s t l fresh.1 in
    let statuses =
      device_statuses scope (others.before_view t1) clock.viewed c.device_idle_window_days in
    let counted = with_devices-sum statuses s1 (
      ap
        (λ x. x.devices_never_seen + x.devices_last_call_failed + x.devices_idle + x.devices_active)
        (p.0)
      ∙ ap
          (λ x.
            x.devices_never_seen + x.devices_last_call_failed + x.devices_idle + x.devices_active)
          (sym fresh.2)) in
    let consistent =
      ends_consistent (length batch) s s1 (with_devices statuses s1) p counted.0 counted.1
        population fresh.0 due in
    (
      with_devices statuses s1,
      rw e (assert_consistent-some (with_devices statuses s1) consistent),
      consistent,
    )

check_batch-consistent :
    (c : DdnsConfig) (scope : DdnsScope) (clock : JobClock) (others : Others) (resolve : Resolve)
    (batch : List Hostname) (s : HealthCheckSummary) (t : Tables)
    → All (λ h. has_last_ip h ≡ true) batch
    → population_balances s ≡ true
    → due_with (length batch) s ≡ true
    → (s.hostnames_checked ≡ 0) × IsTallied s × (apart_from_devices s ≡ s)
    → (s' : HealthCheckSummary) × ((check_batch c scope clock others resolve batch s t).0 ≡ some s')
      × (is_consistent s' ≡ true)
check_batch-consistent c scope clock others resolve [] s t l population due fresh =
    let consistent =
      ends_consistent 0 s s s (refl, omega arith, fresh.1) refl
        (ap
            (λ x.
              x.devices_never_seen + x.devices_last_call_failed + x.devices_idle + x.devices_active)
            (sym fresh.2)
          ∙ ap (λ x. x.devices) fresh.2)
        population fresh.0 due in
    (s, assert_consistent-some s consistent, consistent)
check_batch-consistent c scope clock others resolve (h ∷ hs) s t l population due fresh =
    finish-consistent c scope clock others resolve (h ∷ hs) s (others.before_write t) l population
      due fresh

-- A health check always ends with a summary, and the summary balances: `assert_consistent` raises for
-- no configuration, scope, clock or resolver, whatever others commit before the names are fetched, before
-- the writes, before the write of each name and before the devices are read.
pub run_health_checks-is_consistent :
    (c : DdnsConfig) (scope : DdnsScope) (due_only : Bool) (clock : JobClock) (others : Others)
    (resolve : Resolve) (t : Tables)
    → (s : HealthCheckSummary) × ((run_health_checks c scope due_only clock others resolve t).0
        ≡ some s)
      × (is_consistent s ≡ true)
unfolding run_health_checks is_consistent
run_health_checks-is_consistent c scope due_only clock others resolve t =
    elim (Bool-cases c.health_check_enabled) [
      | inl e ↦
          let fetched = fetch_due due_only c scope clock.started (others.before_fetch t) in
          let balances = begun-balances c scope due_only clock.started fetched t in
          let (s, r, k) =
            check_batch-consistent c scope clock others resolve
              (take c.health_check_batch_size fetched)
              (begun c scope due_only clock.started fetched t) (others.before_fetch t)
              (batch-has_last_ip due_only c scope clock.started (others.before_fetch t)
                c.health_check_batch_size)
              balances.0 balances.1 (begun-unchecked c scope due_only clock.started fetched t) in
          (s, ap (λ (r : Option HealthCheckSummary × Tables). r.0) (if_true _ _ e) ∙ r, k)
      | inr e ↦ (_, ap (λ (r : Option HealthCheckSummary × Tables). r.0) (if_false _ _ e), refl)
    ]
