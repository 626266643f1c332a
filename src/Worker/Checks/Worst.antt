-- ===== src/Worker/Checks/Worst.antt =====
-- What `worst` picks.
use atrium_ddns.Prelude.{◌≤◌, ◌≡◌, ◌⊎◌, inl, inr, refl, List, [], ◌∷◌, IsIn, All, arith, subst, sym}
use atrium_ddns.Worker.Checks.{
  DnsCheckStatus, status_rank, insert_status, sort_statuses, first_status, worst,
}

abbrev AtMost : DnsCheckStatus → DnsCheckStatus → Type 0
AtMost w s = status_rank s ≤ status_rank w

insert_status-first :
    (s : DnsCheckStatus) (xs : List DnsCheckStatus)
    → ((first_status (insert_status s xs) ≡ s) × (status_rank (first_status xs) ≤ status_rank s))
      ⊎ ((first_status (insert_status s xs) ≡ first_status xs)
          × (status_rank s ≤ status_rank (first_status xs)))
unfolding insert_status
insert_status-first s [] = inl (refl, omega arith)
insert_status-first s (x ∷ xs) = ground arith

All-AtMost_mono :
    (v w : DnsCheckStatus) (xs : List DnsCheckStatus)
    → status_rank v ≤ status_rank w
    → All (AtMost v) xs
    → All (AtMost w) xs
All-AtMost_mono v w [] le h = tt
All-AtMost_mono v w (x ∷ xs) le h = (omega (arith, le, h.0), All-AtMost_mono v w xs le h.1)

-- One of the statuses, which none of them outranks.
abbrev pub IsWorst : DnsCheckStatus → List DnsCheckStatus → Type 0
IsWorst w ss = IsIn w ss × All (λ s. status_rank s ≤ status_rank w) ss

-- The worst of statuses that are not none is one of them, and none of them outranks it.
pub worst-IsWorst :
    (s : DnsCheckStatus) (ss : List DnsCheckStatus) → IsWorst (worst (s ∷ ss)) (s ∷ ss)
unfolding worst sort_statuses
worst-IsWorst s [] = (inl refl, (omega arith, tt))
worst-IsWorst s (x ∷ xs) =
    let (m, a) = worst-IsWorst x xs in
    elim (insert_status-first s (sort_statuses (x ∷ xs))) [
      | inl (e, le) ↦
          subst (λ w. IsWorst w (s ∷ x ∷ xs)) (sym e)
            (inl refl, (omega arith, All-AtMost_mono (worst (x ∷ xs)) s (x ∷ xs) le a))
      | inr (e, le) ↦ subst (λ w. IsWorst w (s ∷ x ∷ xs)) (sym e) (inr m, (le, a))
    ]
