-- ===== src/Worker/Clear/Result.antt =====
-- What clearing leaves, and what a second clearing finds.
use atrium_ddns.Prelude.{◌≡◌, refl, Bool, false, ◌&&◌, List, [], ◌∷◌, filter, length, arith, not}
use atrium_ddns.Store.{Tables, Hostname}
use atrium_ddns.Scope.{DdnsScope, sees, predicate, hostname, owns_hostname, select_hostnames}
use atrium_ddns.Worker.Sweep.{update_hostnames, change_rows}
use atrium_ddns.Worker.Clear.{has_result, without_result, clear_health_check_results}

module _ (p v : Hostname → Bool) (f : Hostname → Hostname) (keeps : (h : Hostname) → v (f h) ≡ v h)
    (clears : (h : Hostname) → p (f h) ≡ false) where
  -- No visible row that passes the test is left, and the visible rows number as before.
  change_rows-cleared :
      (xs : List Hostname) → length (filter p (filter v (change_rows (λ h. p h && v h) f xs))) ≡ 0
  change_rows-cleared [] = refl
  change_rows-cleared (h ∷ xs) = ground (arith, change_rows-cleared xs, keeps h, clears h)

  change_rows-visible :
      (xs : List Hostname)
      → length (filter v (change_rows (λ h. p h && v h) f xs)) ≡ length (filter v xs)
  change_rows-visible [] = refl
  change_rows-visible (h ∷ xs) = ground (arith, change_rows-visible xs, keeps h)

  -- The rows out of sight stay as they are.
  change_rows-hidden :
      (xs : List Hostname)
      → filter (λ h. not (v h)) (change_rows (λ h. p h && v h) f xs) ≡ filter (λ h. not (v h)) xs
  change_rows-hidden [] = refl
  change_rows-hidden (h ∷ xs) = ground (arith, change_rows-hidden xs, keeps h)

abbrev pub hidden_hostnames : DdnsScope → Tables → List Hostname
hidden_hostnames scope t = filter (λ h. not (sees scope hostname (owns_hostname t h))) t.hostnames

-- After a clearing no visible row has a result, so that another would clear nothing; the summary tells
-- how many rows had one and how many are visible; and the rows out of sight are unchanged.
pub clear_health_check_results-clears :
    (scope : DdnsScope) (t : Tables)
    → let after = clear_health_check_results scope t in
      ((clear_health_check_results scope after.1).0.cleared ≡ 0)
      × (after.0.cleared ≡ length (filter has_result (select_hostnames scope t)))
      × (after.0.in_scope ≡ length (select_hostnames scope t))
      × (hidden_hostnames scope after.1 ≡ hidden_hostnames scope t)
unfolding clear_health_check_results update_hostnames select_hostnames predicate
clear_health_check_results-clears scope t =
    let v = λ (h : Hostname). sees scope hostname (owns_hostname t h) in
    (
      change_rows-cleared has_result v without_result (λ h. refl) (λ h. refl) t.hostnames,
      refl,
      change_rows-visible has_result v without_result (λ h. refl) (λ h. refl) t.hostnames,
      change_rows-hidden has_result v without_result (λ h. refl) (λ h. refl) t.hostnames,
    )
