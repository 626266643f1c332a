-- ===== src/Worker/Write.antt =====
-- What `run_health_checks` writes for a name, and the status that a row tells
-- (backend/src/atrium_ddns/worker_jobs.py).
use atrium_ddns.Prelude.{
  Bool, true, false, Option, none, some, List, [], ◌∷◌, ◌++◌, map, take, if◌then◌else◌,
}
use atrium_ddns.Text.{Text, codes}
use atrium_ddns.Address.{RecordType, a, aaaa}
use atrium_ddns.Store.{Hostname, Instant}
use atrium_ddns.Worker.Checks.{
  DnsCheckStatus, mismatch, missing, error, same_status, stored_dns_status, worst,
  canonical_address, canonical_answers, join_spaced, wanted,
}
use atrium_ddns.Worker.Health.{RecordCheck, has_text}

abbrev pub same_type : RecordType → RecordType → Bool
same_type a a = true
same_type aaaa aaaa = true
same_type _ _ = false

abbrev first_of : List Text → Option Text
first_of [] = none
first_of (x ∷ xs) = some x

-- The address of a record that is `OK` or `MISMATCH`. No address is printed as the empty text, so `if c`
-- keeps what `if c is not None` keeps.
unfoldable pub found_address : RecordCheck → Option Text
unfolding canonical_answers canonical_address
found_address r =
    if wanted (canonical_address r.expected) (canonical_answers r.answers)
    then canonical_address r.expected
    else first_of (canonical_answers r.answers)

-- `values[column]` after this record, from its value before.
abbrev pub assign : RecordCheck → Option Text → Option Text
assign r before = elim r.status [ error ↦ before | missing ↦ none | _ ↦ found_address r ]

unfoldable pub column : RecordType → List RecordCheck → Option Text → Option Text
unfolding found_address
column rdtype [] value = value
column rdtype (r ∷ rs) value =
    column rdtype rs (if same_type r.rdtype rdtype then assign r value else value)

abbrev type_text : RecordType → Text
type_text a = codes "A"
type_text aaaa = codes "AAAA"

abbrev detail_text : Option Text → Text
detail_text none = codes "None"
detail_text (some detail) = detail

abbrev entry : RecordCheck → Text
entry r = type_text r.rdtype ++ b':' ∷ b' ' ∷ detail_text r.detail

-- `errors`: every failed measurement, and every mismatch that has a detail.
abbrev is_reported : RecordCheck → Bool
is_reported r = elim r.status [ error ↦ true | mismatch ↦ has_text r.detail | _ ↦ false ]

unfoldable pub reported : List RecordCheck → List Text
reported [] = []
reported (r ∷ rs) = let rest = reported rs in if is_reported r then entry r ∷ rest else rest

abbrev pub aggregate_of : List RecordCheck → DnsCheckStatus
aggregate_of results = worst (map (λ r. r.status) results)

abbrev pub check_error : List RecordCheck → Option Text
check_error results =
    if same_status (aggregate_of results) error
    then some (take 255 (join_spaced b';' (reported results)))
    else none

-- The columns that the check writes.
unfoldable pub set_check : Instant → List RecordCheck → Hostname → Hostname
unfolding column reported worst join_spaced
set_check now results h = record h {
  dns_checked_at = some now;
  dns_ip_v4 = column a results none;
  dns_ip_v6 = column aaaa results none;
  dns_check_error = check_error results;
}

abbrev pub stored_of : Hostname → Option Text → Option Text → DnsCheckStatus
stored_of h last seen = stored_dns_status last seen h.dns_checked_at h.dns_check_error

-- The status that the columns of a row tell.
unfoldable pub stored_status : Hostname → DnsCheckStatus
unfolding stored_dns_status worst
stored_status h = worst (
    (if has_text h.last_ip_v4 then stored_of h h.last_ip_v4 h.dns_ip_v4 ∷ [] else [])
    ++ (if has_text h.last_ip_v6 then stored_of h h.last_ip_v6 h.dns_ip_v6 ∷ [] else []))
