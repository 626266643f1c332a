-- ===== src/Worker/Clear.antt =====
-- `clear_health_check_results` (backend/src/atrium_ddns/worker_jobs.py).
pub mod Result
use atrium_ddns.Prelude.{
  ℕ, Bool, true, false, ◌&&◌, ◌||◌, Option, none, some, List, [], ◌∷◌, filter, length, is_some,
  if◌then◌else◌,
}
use atrium_ddns.Store.{Tables, Hostname}
use atrium_ddns.Scope.{DdnsScope, sees, predicate, hostname, owns_hostname, select_hostnames}
use atrium_ddns.Worker.Sweep.{update_hostnames}

pub record ClearSummary : Type 0 where
  pub cleared : ℕ
  pub in_scope : ℕ

-- A column of the four that is not NULL.
abbrev pub has_result : Hostname → Bool
has_result h =
    is_some h.dns_checked_at
    || is_some h.dns_ip_v4
    || is_some h.dns_ip_v6
    || is_some h.dns_check_error

abbrev pub without_result : Hostname → Hostname
without_result h = record h {
  dns_checked_at = none;
  dns_ip_v4 = none;
  dns_ip_v6 = none;
  dns_check_error = none;
}

-- The row count of the `UPDATE` is that of the rows that it matches.
unfoldable pub clear_health_check_results : DdnsScope → Tables → ClearSummary × Tables
unfolding update_hostnames select_hostnames
clear_health_check_results scope t =
    let after = update_hostnames scope has_result without_result t in
    (
      record {
        cleared = length (filter has_result (select_hostnames scope t));
        in_scope = length (select_hostnames scope after);
      },
      after,
    )
