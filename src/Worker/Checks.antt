-- ===== src/Worker/Checks.antt =====
-- One record's check (backend/src/atrium_ddns/worker_jobs.py): `_resolve_one`, `classify_record`,
-- `stored_dns_status` and `worst`.
pub mod Worst
pub mod Verdicts
use atrium_ddns.Prelude.{
  ℕ, suc, Bool, true, false, ◌&&◌, Option, none, some, List, [], ◌∷◌, ◌++◌, take, leb,
  if◌then◌else◌,
}
use atrium_ddns.Text.{Text, codes, strip, contains, text_eq, is_empty}
use atrium_ddns.Store.{Instant}
use atrium_ddns.Resolvers.{canonical}

pub data DnsCheckStatus : Type 0 where
  never_checked ok mismatch missing error : DnsCheckStatus

abbrev pub same_status : DnsCheckStatus → DnsCheckStatus → Bool
same_status never_checked never_checked = true
same_status ok ok = true
same_status mismatch mismatch = true
same_status missing missing = true
same_status error error = true
same_status _ _ = false

-- `_canonical`.
unfoldable pub canonical_address : Text → Option Text
unfolding canonical
canonical_address address = canonical (strip address)

-- `[c for c in (_canonical(a) for a in answered) if c is not None]`.
abbrev keep_some : Option Text → List Text → List Text
keep_some none rest = rest
keep_some (some c) rest = c ∷ rest

unfoldable pub canonical_answers : List Text → List Text
canonical_answers [] = []
canonical_answers (answer ∷ rest) = keep_some (canonical_address answer) (canonical_answers rest)

-- `', '.join(texts)` and `'; '.join(texts)`: the separator is a character and a space.
unfoldable pub join_spaced : ℕ → List Text → Text
join_spaced separator [] = []
join_spaced separator (x ∷ []) = x
join_spaced separator (x ∷ y ∷ rest) = x ++ separator ∷ b' ' ∷ join_spaced separator (y ∷ rest)

-- What a query comes to: the addresses, or the exception that `resolve` raises. `failed` is any other
-- exception, with the name of its class and its text.
pub data Resolved : Type 0 where
  answered : List Text → Resolved
  nxdomain no_answer no_nameservers timed_out : Resolved
  failed : Text → Text → Resolved

-- `_resolve_one`: the addresses, or the error.
unfoldable pub resolve_one : Resolved → Option (List Text) × Option Text
resolve_one (answered addresses) = (some addresses, none)
resolve_one nxdomain = (some [], none)
resolve_one no_answer = (some [], none)
resolve_one no_nameservers = (none, some (codes "no nameservers would answer"))
resolve_one timed_out = (none, some (codes "resolver timed out"))
resolve_one (failed class text) = (none, some (class ++ b':' ∷ b' ' ∷ text))

-- The status, the address to store, and the detail.
pub record Verdict : Type 0 where
  pub status : DnsCheckStatus
  pub stored : Option Text
  pub detail : Option Text

mismatch_detail : Text → List Text → Text
unfolding join_spaced
mismatch_detail expected found =
    take 255 (codes "expected " ++ expected ++ codes ", answered " ++ join_spaced b',' found)

-- `want is not None and want in canonical`.
abbrev pub wanted : Option Text → List Text → Bool
wanted none found = false
wanted (some want) found = contains found want

-- The addresses that were found, against the one that is wanted.
unfoldable pub compare_answers : Text → Option Text → List Text → Verdict
unfolding mismatch_detail
compare_answers expected want [] = record { status = missing; stored = none; detail = none }
compare_answers expected want (first ∷ found) =
    if wanted want (first ∷ found)
    then record { status = ok; stored = want; detail = none }
    else record {
      status = mismatch;
      stored = some first;
      detail = some (mismatch_detail expected (first ∷ found));
    }

unfoldable pub classify_record : Text → Option (List Text) → Option Text → Verdict
unfolding canonical_answers compare_answers canonical_address
classify_record expected _ (some problem) = record {
  status = error;
  stored = none;
  detail = some (take 255 problem);
}
classify_record expected none none = record {
  status = error;
  stored = none;
  detail = some (codes "resolver returned neither an answer nor an error");
}
classify_record expected (some addresses) none =
    compare_answers expected (canonical_address expected) (canonical_answers addresses)

-- Both are addresses, and the same.
abbrev pub agree : Option Text → Option Text → Bool
agree (some want) (some got) = text_eq want got
agree _ _ = false

-- `_canonical(last_ip) if last_ip else None`.
abbrev pub canonical_or_none : Option Text → Option Text
canonical_or_none none = none
canonical_or_none (some ip) = if is_empty ip then none else canonical_address ip

unfoldable pub stored_dns_status :
    Option Text → Option Text → Option Instant → Option Text → DnsCheckStatus
unfolding canonical_address
stored_dns_status last_ip dns_ip none dns_check_error = never_checked
stored_dns_status last_ip dns_ip (some _) (some _) = error
stored_dns_status last_ip none (some _) none = missing
stored_dns_status last_ip (some ip) (some _) none =
    if agree (canonical_or_none last_ip) (canonical_address ip) then ok else mismatch

-- `_STATUS_RANK`, with 1 added to every rank.
abbrev pub status_rank : DnsCheckStatus → ℕ
status_rank never_checked = 0
status_rank ok = 1
status_rank missing = 2
status_rank mismatch = 3
status_rank error = 4

-- `sorted(statuses, key=rank, reverse=True)`, which keeps equal ranks in order.
unfoldable pub insert_status : DnsCheckStatus → List DnsCheckStatus → List DnsCheckStatus
insert_status s [] = s ∷ []
insert_status s (x ∷ xs) =
    if leb (status_rank x) (status_rank s) then s ∷ x ∷ xs else x ∷ insert_status s xs

unfoldable pub sort_statuses : List DnsCheckStatus → List DnsCheckStatus
unfolding insert_status
sort_statuses [] = []
sort_statuses (s ∷ ss) = insert_status s (sort_statuses ss)

abbrev first_status : List DnsCheckStatus → DnsCheckStatus
first_status [] = never_checked
first_status (s ∷ ss) = s

unfoldable pub worst : List DnsCheckStatus → DnsCheckStatus
unfolding sort_statuses
worst statuses = first_status (sort_statuses statuses)
