-- ===== src/Nic/Dns/Aggregate.antt =====
-- What `aggregate` makes of the statuses of a host name.
use atrium_ddns.Prelude.{
  ◌≡◌, ◌⊎◌, inl, inr, refl, true, false, some, List, [], ◌∷◌, ◌++◌, All, IsIn, any, all, Bool-cases,
  ap,
}
use atrium_ddns.Status.{
  Status, good, nochg, dnserr, nohost, unknown_service, notfqdn, badauth, abuse, is_good, is_nochg,
  is_settled,
}
use atrium_ddns.Nic.Dns.{aggregate, first_other}

-- The first status, after any number of `nochg`, that is neither `good` nor `nochg`.
pub record IsFirstOther (statuses : List Status) (status : Status) : Type 0 where
  pub before : List Status
  pub after : List Status
  pub parts : statuses ≡ before ++ status ∷ after
  pub unchanged : All (λ s. s ≡ nochg) before
  pub other : is_settled status ≡ false

any_good : (statuses : List Status) → any is_good statuses ≡ true → IsIn good statuses
any_good [] h = absurd (cc h)
any_good (good ∷ statuses) h = inl refl
any_good (nochg ∷ statuses) h = inr (any_good statuses h)
any_good (_ ∷ statuses) h = inr (any_good statuses h)

all_nochg : (statuses : List Status) → all is_nochg statuses ≡ true → All (λ s. s ≡ nochg) statuses
all_nochg [] h = tt
all_nochg (nochg ∷ statuses) h = (refl, all_nochg statuses h)
all_nochg (good ∷ statuses) h = absurd (cc h)
all_nochg (_ ∷ statuses) h = absurd (cc h)

first_other_lem :
    (statuses : List Status)
    → any is_good statuses ≡ false
    → all is_nochg statuses ≡ false
    → (status : Status) × (first_other statuses ≡ some status) × IsFirstOther statuses status
unfolding first_other
first_other_lem [] g n = absurd (cc n)
first_other_lem (good ∷ statuses) g n = absurd (cc g)
first_other_lem (nochg ∷ statuses) g n =
    let (status, e, r) = first_other_lem statuses g n in
    (
      status,
      e,
      record {
        before = nochg ∷ r.before;
        after = r.after;
        parts = ap (λ (ss : List Status). nochg ∷ ss) r.parts;
        unchanged = (refl, r.unchanged);
        other = r.other;
      },
    )
first_other_lem (dnserr ∷ statuses) g n = (
  dnserr,
  refl,
  record { before = []; after = statuses; parts = refl; unchanged = tt; other = refl },
)
first_other_lem (nohost ∷ statuses) g n = (
  nohost,
  refl,
  record { before = []; after = statuses; parts = refl; unchanged = tt; other = refl },
)
first_other_lem (unknown_service ∷ statuses) g n = (
  unknown_service,
  refl,
  record { before = []; after = statuses; parts = refl; unchanged = tt; other = refl },
)
first_other_lem (notfqdn ∷ statuses) g n = (
  notfqdn,
  refl,
  record { before = []; after = statuses; parts = refl; unchanged = tt; other = refl },
)
first_other_lem (badauth ∷ statuses) g n = (
  badauth,
  refl,
  record { before = []; after = statuses; parts = refl; unchanged = tt; other = refl },
)
first_other_lem (abuse ∷ statuses) g n = (
  abuse,
  refl,
  record { before = []; after = statuses; parts = refl; unchanged = tt; other = refl },
)

-- Of one status or more, any `good` makes it `good`; else only `nochg` makes it `nochg`; else it is the
-- first that is neither. It never raises on them.
pub aggregate_lem :
    (status : Status) (statuses : List Status)
    → (IsIn good (status ∷ statuses) × (aggregate (status ∷ statuses) ≡ some good))
      ⊎ (All (λ s. s ≡ nochg) (status ∷ statuses) × (aggregate (status ∷ statuses) ≡ some nochg))
      ⊎ ((first : Status) × (aggregate (status ∷ statuses) ≡ some first)
          × IsFirstOther (status ∷ statuses) first
          × (any is_good (status ∷ statuses) ≡ false))
unfolding aggregate
aggregate_lem status statuses = elim (Bool-cases (any is_good (status ∷ statuses))) [
  | inl g ↦ inl (any_good (status ∷ statuses) g, rw g)
  | inr g ↦ elim (Bool-cases (all is_nochg (status ∷ statuses))) [
    | inl n ↦ inr (inl (all_nochg (status ∷ statuses) n, rw (g, n)))
    | inr n ↦
        let (first, e, r) = first_other_lem (status ∷ statuses) g n in
        inr (inr (first, rw (g, n) e, r, g))
  ]
]

pub aggregate_total :
    (status : Status) (statuses : List Status)
    → (first : Status) × (aggregate (status ∷ statuses) ≡ some first)
aggregate_total status statuses = elim (aggregate_lem status statuses) [
  | inl (_, e) ↦ (good, e)
  | inr (inl (_, e)) ↦ (nochg, e)
  | inr (inr (first, e, _, _)) ↦ (first, e)
]
