-- ===== src/Worker/Sweep/Balance.antt =====
-- Why the accounting of a run balances.
use atrium_ddns.Prelude.{
  ℕ, suc, ◌+◌, ◌≡◌, inl, inr, refl, ◌∙◌, Bool, true, false, Option, none, some, List, [], ◌∷◌, ◌++◌,
  All, All-append, length, ◌==◌, Bool-cases, arith, ◌||◌,
}
use atrium_ddns.Text.{Text, is_empty}
use atrium_ddns.Store.{Tables, Hostname, Instant}
use atrium_ddns.Worker.Checks.{
  DnsCheckStatus, ok, mismatch, missing, error, never_checked, classify_record, compare_answers,
  canonical_answers, canonical_address, resolve_one,
}
use atrium_ddns.Worker.Summary.{HealthCheckSummary, count_record}
use atrium_ddns.Worker.Health.{
  Resolve, RecordCheck, has_last_ip, has_text, check_record, check_family, check_hostname,
}
use atrium_ddns.Worker.Sweep.{
  count_records, count_transition, settle_name, settle_names, RecordType, a, aaaa, DdnsScope,
  update_hostnames,
}
use atrium_ddns.Worker.Write.{set_check}

abbrev is_checked : DnsCheckStatus → Bool
is_checked never_checked = false
is_checked _ = true

compare_answers-is_checked :
    (expected : Text) (want : Option Text) (found : List Text)
    → is_checked (compare_answers expected want found).status ≡ true
unfolding compare_answers
compare_answers-is_checked expected want [] = refl
compare_answers-is_checked expected want (x ∷ found) = ground arith

classify_record-is_checked :
    (expected : Text) (measured : Option (List Text)) (problem : Option Text)
    → is_checked (classify_record expected measured problem).status ≡ true
unfolding classify_record canonical_answers canonical_address
classify_record-is_checked expected _ (some problem) = refl
classify_record-is_checked expected none none = refl
classify_record-is_checked expected (some found) none =
    compare_answers-is_checked expected (canonical_address expected) (canonical_answers found)

-- What counting records leaves alone.
abbrev pub apart_from_records : HealthCheckSummary → HealthCheckSummary
apart_from_records s = record s {
  hostnames_checked = 0;
  records_checked = 0;
  ok_count = 0;
  mismatch_count = 0;
  missing_count = 0;
  error_count = 0;
  transitions = 0;
}

abbrev pub IsTallied : HealthCheckSummary → Type 0
IsTallied s = s.ok_count + s.mismatch_count + s.missing_count + s.error_count ≡ s.records_checked

-- From one summary to a later one, with `n` more names checked.
abbrev pub Progress : ℕ → HealthCheckSummary → HealthCheckSummary → Type 0
Progress n s s' =
    (apart_from_records s' ≡ apart_from_records s)
    × (s'.hostnames_checked ≡ s.hostnames_checked + n)
    × IsTallied s'

abbrev Checked : RecordCheck → Type 0
Checked r = is_checked r.status ≡ true

count_record-Progress :
    (status : DnsCheckStatus) (s : HealthCheckSummary)
    → is_checked status ≡ true
    → IsTallied s
    → (s' : HealthCheckSummary) × (count_record status s ≡ some s') × Progress 0 s s'
count_record-Progress never_checked s h t = absurd (cc h)
count_record-Progress ok s h t = (_, refl, (refl, omega arith, omega (arith, t)))
count_record-Progress mismatch s h t = (_, refl, (refl, omega arith, omega (arith, t)))
count_record-Progress missing s h t = (_, refl, (refl, omega arith, omega (arith, t)))
count_record-Progress error s h t = (_, refl, (refl, omega arith, omega (arith, t)))

count_records-Progress :
    (rs : List RecordCheck) (s : HealthCheckSummary)
    → All Checked rs
    → IsTallied s
    → (s' : HealthCheckSummary) × (count_records rs s ≡ some s') × Progress 0 s s'
unfolding count_records
count_records-Progress [] s h t = (s, refl, (refl, omega arith, t))
count_records-Progress (r ∷ rs) s h t =
    let (s1, e1, p1) = count_record-Progress r.status s h.0 t in
    let (s2, e2, p2) = count_records-Progress rs s1 h.1 p1.2 in
    (s2, rw (e1, count_records) e2, (p2.0 ∙ p1.0, omega (arith, p1.1, p2.1), p2.2))

check_family-Checked :
    (resolve : Resolve) (h : Hostname) (rdtype : RecordType) (ip : Option Text)
    → All Checked (check_family resolve h rdtype ip)
unfolding check_record
check_family-Checked resolve h rdtype none = tt
check_family-Checked resolve h rdtype (some ip) = elim (Bool-cases (is_empty ip)) [
  | inl e ↦ rw e tt
  | inr e ↦
      let measured = resolve_one (resolve h.name rdtype) in
      rw e (classify_record-is_checked ip measured.0 measured.1, tt)
]

check_hostname-Checked : (resolve : Resolve) (h : Hostname) → All Checked (check_hostname resolve h)
unfolding check_hostname
check_hostname-Checked resolve h =
    All-append Checked (check_family resolve h a h.last_ip_v4)
      (check_family resolve h aaaa h.last_ip_v6) (check_family-Checked resolve h a h.last_ip_v4)
      (check_family-Checked resolve h aaaa h.last_ip_v6)

-- A name with a last address has a record to check.
abbrev some_records : List RecordCheck → Bool
some_records [] = false
some_records (r ∷ rs) = true

check_families-some_records :
    (resolve : Resolve) (h : Hostname) (x y : Option Text)
    → (has_text x || has_text y) ≡ true
    → some_records (check_family resolve h a x ++ check_family resolve h aaaa y) ≡ true
check_families-some_records resolve h none none l = absurd (cc l)
check_families-some_records resolve h none (some y) l = ground (arith, l)
check_families-some_records resolve h (some x) none l = ground (arith, l)
check_families-some_records resolve h (some x) (some y) l = ground (arith, l)

check_hostname-some_records :
    (resolve : Resolve) (h : Hostname)
    → has_last_ip h ≡ true
    → some_records (check_hostname resolve h) ≡ true
unfolding check_hostname
check_hostname-some_records resolve h l =
    check_families-some_records resolve h h.last_ip_v4 h.last_ip_v6 l

count_transition-Progress :
    (h : Hostname) (rs : List RecordCheck) (n : ℕ) (s s' : HealthCheckSummary)
    → Progress n s s'
    → Progress n s (count_transition h rs s')
count_transition-Progress h rs n s s' p = ground arith

settle_name-Progress :
    (scope : DdnsScope) (now : Instant) (h : Hostname) (rs : List RecordCheck)
    (s : HealthCheckSummary) (t : Tables)
    → some_records rs ≡ true
    → All Checked rs
    → IsTallied s
    → (s' : HealthCheckSummary) × (t' : Tables) × (settle_name scope now h rs (s, t)
        ≡ some (s', t'))
      × Progress 1 s s'
unfolding settle_name
settle_name-Progress scope now h [] s t i c k = absurd (cc i)
settle_name-Progress scope now h (r ∷ rs) s t i c k =
    let (s1, e, p) =
      count_records-Progress (r ∷ rs) (record s { hostnames_checked = suc s.hostnames_checked }) c
        k in
    (
      count_transition h (r ∷ rs) s1,
      update_hostnames scope (λ x. x.id == h.id) (set_check now (r ∷ rs)) t,
      rw (e, settle_name) refl,
      count_transition-Progress h (r ∷ rs) 1 s s1 (p.0, omega (arith, p.1), p.2),
    )

-- Every name of a batch is counted.
pub settle_names-Progress :
    (scope : DdnsScope) (now : Instant) (before_row : Hostname → Tables → Tables)
    (resolve : Resolve) (hs : List Hostname) (s : HealthCheckSummary) (t : Tables)
    → All (λ h. has_last_ip h ≡ true) hs
    → IsTallied s
    → (s' : HealthCheckSummary) × (t' : Tables) × (settle_names scope now before_row resolve hs
          (s, t)
        ≡ some (s', t'))
      × Progress (length hs) s s'
unfolding settle_names
settle_names-Progress scope now before_row resolve [] s t l k = (s, t, refl, (refl, omega arith, k))
settle_names-Progress scope now before_row resolve (h ∷ hs) s t l k =
    let (s1, t1, e1, p1) =
      settle_name-Progress scope now h (check_hostname resolve h) s (before_row h t)
        (check_hostname-some_records resolve h l.0) (check_hostname-Checked resolve h) k in
    let (s2, t2, e2, p2) = settle_names-Progress scope now before_row resolve hs s1 t1 l.1 p1.2 in
    (s2, t2, rw (e1, settle_names) e2, (p2.0 ∙ p1.0, omega (arith, p1.1, p2.1), p2.2))
