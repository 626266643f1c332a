-- ===== src/Worker/Sweep/Frame.antt =====
-- What a health check does not touch.
use atrium_ddns.Prelude.{
  ◌≡◌, refl, ap, ◌∙◌, inl, inr, Bool, ◌&&◌, Option, none, some, List, [], ◌∷◌, map, take,
  Bool-cases, Option-cases, ◌==◌, if_true, if_false, suc,
}
use atrium_ddns.Store.{Tables, Hostname, Instant}
use atrium_ddns.Scope.{DdnsScope, sees, hostname, owns_hostname}
use atrium_ddns.Worker.Config.{DdnsConfig}
use atrium_ddns.Worker.Summary.{HealthCheckSummary}
use atrium_ddns.Worker.Health.{
  Resolve, RecordCheck, Others, JobClock, check_hostname, fetch_due, reconcile,
}
use atrium_ddns.Worker.Sweep.{
  change_rows, update_hostnames, count_records, settle_name, settle_names, finish, check_batch,
  start_summary, run_health_checks,
}
use atrium_ddns.Worker.Write.{set_check}
use atrium_ddns.Worker.Clear.{without_result}

-- The tables without the four columns of the checks.
abbrev pub forget_checks : Tables → Tables
forget_checks t = record t { hostnames = map without_result t.hostnames }

-- No other transaction commits during a run.
abbrev pub undisturbed : Others
undisturbed = record {
  before_fetch = λ t. t;
  before_write = λ t. t;
  before_row = λ h t. t;
  before_view = λ t. t;
}

change_rows-forget :
    (p : Hostname → Bool) (f : Hostname → Hostname)
    → ((h : Hostname) → without_result (f h) ≡ without_result h)
    → (xs : List Hostname) → map without_result (change_rows p f xs) ≡ map without_result xs
change_rows-forget p f k [] = refl
change_rows-forget p f k (h ∷ xs) = elim (Bool-cases (p h)) [
  | inl e ↦ rw (e, k h, change_rows-forget p f k xs) refl
  | inr e ↦ rw (e, change_rows-forget p f k xs) refl
]

set_check-forget :
    (now : Instant) (results : List RecordCheck) (h : Hostname)
    → without_result (set_check now results h) ≡ without_result h
unfolding set_check
set_check-forget now results h = refl

-- What a transaction came to leaves everything else alone, if it came to anything.
abbrev Forgets : Tables → Option (HealthCheckSummary × Tables) → Type 0
Forgets t none = Unit
Forgets t (some (s, t')) = forget_checks t' ≡ forget_checks t

settle_name-Forgets :
    (scope : DdnsScope) (now : Instant) (h : Hostname) (rs : List RecordCheck)
    (s : HealthCheckSummary) (t : Tables)
    → Forgets t (settle_name scope now h rs (s, t))
unfolding settle_name update_hostnames
settle_name-Forgets scope now h [] s t = refl
settle_name-Forgets scope now h (r ∷ rs) s t =
    elim (Option-cases
      (count_records (r ∷ rs) (record s { hostnames_checked = suc s.hostnames_checked }))) [
        | inl e ↦ rw (e, settle_name) tt
        | inr (s', e) ↦
            rw (e, settle_name)
              (ap (λ rows. record t { hostnames = rows })
                (change_rows-forget (λ x. x.id == h.id && sees scope hostname (owns_hostname t x))
                  (set_check now (r ∷ rs)) (λ x. set_check-forget now (r ∷ rs) x) t.hostnames))
      ]

Forgets-trans :
    (t t' : Tables) (r : Option (HealthCheckSummary × Tables))
    → forget_checks t' ≡ forget_checks t
    → Forgets t' r
    → Forgets t r
Forgets-trans t t' none e h = tt
Forgets-trans t t' (some (s, u)) e h = h ∙ e

settle_names-Forgets :
    (scope : DdnsScope) (now : Instant) (resolve : Resolve) (hs : List Hostname)
    (s : HealthCheckSummary) (t : Tables)
    → Forgets t (settle_names scope now (λ h t. t) resolve hs (s, t))
unfolding settle_names
settle_names-Forgets scope now resolve [] s t = refl
settle_names-Forgets scope now resolve (h ∷ hs) s t =
    let first = settle_name-Forgets scope now h (check_hostname resolve h) s t in
    elim (Option-cases (settle_name scope now h (check_hostname resolve h) (s, t))) [
      | inl e ↦ rw (e, settle_names) tt
      | inr ((s', t'), e) ↦
          rw (e, settle_names)
            (Forgets-trans t t' (settle_names scope now (λ h t. t) resolve hs (s', t'))
              (rw e at first) (settle_names-Forgets scope now resolve hs s' t'))
    ]

finish-Forgets :
    (c : DdnsConfig) (scope : DdnsScope) (now : Instant) (t : Tables)
    (r : Option (HealthCheckSummary × Tables))
    → Forgets t r
    → forget_checks (finish c scope now (λ t. t) t r).1 ≡ forget_checks t
finish-Forgets c scope now t none h = refl
finish-Forgets c scope now t (some (s, t')) h = h

check_batch-Forgets :
    (c : DdnsConfig) (scope : DdnsScope) (clock : JobClock) (resolve : Resolve) (hs : List Hostname)
    (s : HealthCheckSummary) (t : Tables)
    → forget_checks (check_batch c scope clock undisturbed resolve hs s t).1 ≡ forget_checks t
check_batch-Forgets c scope clock resolve [] s t = refl
check_batch-Forgets c scope clock resolve (h ∷ hs) s t =
    finish-Forgets c scope clock.viewed t
      (settle_names scope clock.checked (λ h t. t) resolve (h ∷ hs) (s, t))
      (settle_names-Forgets scope clock.checked resolve (h ∷ hs) s t)

-- A health check during which nothing else is committed changes no table but that of the host names, and
-- there no column but the four that hold the results of checks, and `updated_at`, which the database writes
-- by itself and the model leaves out.
pub run_health_checks-frame :
    (c : DdnsConfig) (scope : DdnsScope) (due_only : Bool) (clock : JobClock) (resolve : Resolve)
    (t : Tables)
    → forget_checks (run_health_checks c scope due_only clock undisturbed resolve t).1
      ≡ forget_checks t
unfolding run_health_checks
run_health_checks-frame c scope due_only clock resolve t =
    let fetched = fetch_due due_only c scope clock.started t in
    let s = start_summary c scope due_only clock.started t in
    elim (Bool-cases c.health_check_enabled) [
      | inl e ↦
          ap (λ (r : Option HealthCheckSummary × Tables). forget_checks r.1) (if_true _ _ e)
          ∙ check_batch-Forgets c scope clock resolve (take c.health_check_batch_size fetched)
              (reconcile c fetched s) t
      | inr e ↦ ap (λ (r : Option HealthCheckSummary × Tables). forget_checks r.1) (if_false _ _ e)
    ]
