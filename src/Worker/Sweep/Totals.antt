-- ===== src/Worker/Sweep/Totals.antt =====
-- The counts before and after the names: the population, the batch and the devices.
use atrium_ddns.Prelude.{
  ℕ, suc, zero, ◌+◌, ◌-◌, ◌≡◌, ◌⊎◌, inl, inr, refl, Bool, true, ◌&&◌, not, List, [], ◌∷◌, All,
  All-IsIn, IsIn, filter, filter-IsIn, length, take, arith, ◌∙◌, &&_parts,
}
use atrium_ddns.Prelude.Int.{pos, sub_ℕ, add_ℤ, eq_ℤ}
use atrium_ddns.Store.{Tables, Hostname, Instant}
use atrium_ddns.Scope.{DdnsScope, select_hostnames}
use atrium_ddns.Worker.Config.{DdnsConfig}
use atrium_ddns.Worker.Summary.{
  HealthCheckSummary, Liveness, never_seen, last_call_failed, idle, active, count_device,
}
use atrium_ddns.Worker.Devices.{DeviceStatus}
use atrium_ddns.Worker.Health.{
  has_last_ip, is_due, staleness, count, smaller, insert_due, order_due, due_rows, fetch_due,
}
use atrium_ddns.Worker.Sweep.{count_devices, with_devices}

pub count_partition :
    (p q : Hostname → Bool) (rows : List Hostname)
    → count (λ h. not (p h)) rows
        + count (λ h. p h && not (q h)) rows
        + count (λ h. p h && q h) rows
      ≡ length rows
count_partition p q [] = omega arith
count_partition p q (h ∷ rows) = ground (arith, count_partition p q rows)

pub due_count :
    (due size n : ℕ)
    → eq_ℤ (add_ℤ (pos (n + (due - smaller due size))) (sub_ℕ (smaller due size) n)) (pos due)
      ≡ true
due_count due size n = ground arith

pub insert_due-IsIn :
    (h : Hostname) (xs : List Hostname) (x : Hostname)
    → IsIn x (insert_due h xs)
    → (x ≡ h) ⊎ IsIn x xs
unfolding insert_due
insert_due-IsIn h [] x (inl e) = inl e
insert_due-IsIn h [] x (inr m) = elim m [ ]
insert_due-IsIn h (y ∷ ys) x m = ground (arith, insert_due-IsIn h ys x)

pub order_due-IsIn : (xs : List Hostname) (x : Hostname) → IsIn x (order_due xs) → IsIn x xs
unfolding order_due
order_due-IsIn [] x m = m
order_due-IsIn (y ∷ ys) x m = elim (insert_due-IsIn y (order_due ys) x m) [
  | inl e ↦ inl e
  | inr i ↦ inr (order_due-IsIn ys x i)
]

pub take-IsIn : (n : ℕ) (xs : List Hostname) (x : Hostname) → IsIn x (take n xs) → IsIn x xs
take-IsIn zero xs x m = elim m [ ]
take-IsIn (suc n) [] x m = elim m [ ]
take-IsIn (suc n) (y ∷ ys) x (inl e) = inl e
take-IsIn (suc n) (y ∷ ys) x (inr m) = inr (take-IsIn n ys x m)

-- Each name of a batch has a last address.
pub batch-has_last_ip :
    (due_only : Bool) (c : DdnsConfig) (scope : DdnsScope) (now : Instant) (t : Tables) (n : ℕ)
    → All (λ h. has_last_ip h ≡ true) (take n (fetch_due due_only c scope now t))
unfolding due_rows
batch-has_last_ip due_only c scope now t n =
    let rows = filter (is_due due_only c now) (select_hostnames scope t) in
    All-IsIn (λ h. has_last_ip h ≡ true) (take n (fetch_due due_only c scope now t))
      (λ h m.
        let fetched = take-IsIn n (fetch_due due_only c scope now t) h m in
        let due =
          order_due-IsIn rows h
            (take-IsIn (suc c.health_check_batch_size) (order_due rows) h fetched) in
        let (passes, listed) =
          filter-IsIn (is_due due_only c now) (select_hostnames scope t) {x = h} due in
        (&&_parts (has_last_ip h) (staleness due_only c now h) passes).0)

-- What counting devices leaves alone.
abbrev pub apart_from_devices : HealthCheckSummary → HealthCheckSummary
apart_from_devices s = record s {
  devices = 0;
  devices_never_seen = 0;
  devices_last_call_failed = 0;
  devices_idle = 0;
  devices_active = 0;
}

abbrev devices_counted : HealthCheckSummary → ℕ
devices_counted s =
    s.devices_never_seen + s.devices_last_call_failed + s.devices_idle + s.devices_active

count_device-sum :
    (l : Liveness) (s : HealthCheckSummary)
    → (apart_from_devices (count_device l s) ≡ apart_from_devices s)
      × ((count_device l s).devices ≡ s.devices)
      × (devices_counted (count_device l s) ≡ suc (devices_counted s))
count_device-sum never_seen s = (refl, refl, omega arith)
count_device-sum last_call_failed s = (refl, refl, omega arith)
count_device-sum idle s = (refl, refl, omega arith)
count_device-sum active s = (refl, refl, omega arith)

count_devices-sum :
    (ds : List DeviceStatus) (s : HealthCheckSummary)
    → (apart_from_devices (count_devices ds s) ≡ apart_from_devices s)
      × ((count_devices ds s).devices ≡ s.devices)
      × (devices_counted (count_devices ds s) ≡ devices_counted s + length ds)
unfolding count_devices
count_devices-sum [] s = (refl, refl, omega arith)
count_devices-sum (d ∷ ds) s =
    let step = count_device-sum d.liveness s in
    let rest = count_devices-sum ds (count_device d.liveness s) in
    (rest.0 ∙ step.0, rest.1 ∙ step.1, omega (arith, step.2, rest.2))

-- Every device is counted once.
pub with_devices-sum :
    (ds : List DeviceStatus) (s : HealthCheckSummary)
    → devices_counted s ≡ 0
    → (apart_from_devices (with_devices ds s) ≡ apart_from_devices s)
      × (devices_counted (with_devices ds s) ≡ (with_devices ds s).devices)
with_devices-sum ds s h =
    let sum = count_devices-sum ds (record s { devices = length ds }) in
    (sum.0, omega (arith, sum.1, sum.2, h))
