-- ===== src/Worker/Checks/Verdicts.antt =====
-- What a measurement comes to as a status.
use atrium_ddns.Prelude.{
  ◌≡◌, ◌↔◌, inl, inr, refl, subst, Bool, true, false, Option, none, some, List, [], ◌∷◌, IsIn, All,
  Bool-cases, Option-cases, if_true, arith, ap, ◌≢◌,
}
use atrium_ddns.Text.{Text, contains, text_eq, text_eq_iff}
use atrium_ddns.Worker.Checks.{
  DnsCheckStatus, ok, missing, error, Resolved, answered, nxdomain, no_answer, no_nameservers,
  timed_out, failed, resolve_one, canonical_address, canonical_answers, wanted, compare_answers,
  classify_record, Verdict,
}

-- Whether the zone was reached, and what it holds for the name.
abbrev pub is_measured : Resolved → Bool
is_measured (answered _) = true
is_measured nxdomain = true
is_measured no_answer = true
is_measured _ = false

abbrev pub answers_of : Resolved → List Text
answers_of (answered addresses) = addresses
answers_of _ = []

-- An answer is the address that is expected, however the two are spelled.
abbrev pub Confirms : Text → List Text → Type 0
Confirms expected answers =
    (want : Text) × (answer : Text) × IsIn answer answers
    × (canonical_address answer ≡ some want)
    × (canonical_address expected ≡ some want)

abbrev pub verdict_on : Text → Resolved → DnsCheckStatus
verdict_on expected r = (classify_record expected (resolve_one r).0 (resolve_one r).1).status

canonical_answers-contains :
    (answers : List Text) (want : Text)
    → contains (canonical_answers answers) want ≡ true
    → (answer : Text) × IsIn answer answers × (canonical_address answer ≡ some want)
unfolding canonical_answers
canonical_answers-contains [] want h = absurd (cc h)
canonical_answers-contains (x ∷ xs) want h = elim (Option-cases (canonical_address x)) [
  | inl e ↦
      let (answer, m, k) = canonical_answers-contains xs want (rw (e, canonical_answers) at h) in
      (answer, inr m, k)
  | inr (c, e) ↦
      let found : contains (c ∷ canonical_answers xs) want ≡ true =
        rw (e, canonical_answers) at h in
      elim (Bool-cases (text_eq c want)) [
        | inl f ↦
            (x, inl refl, subst (λ w. canonical_address x ≡ some w) ((text_eq_iff c want).0 f) e)
        | inr f ↦
            let (answer, m, k) = canonical_answers-contains xs want (ground (arith, found, f)) in
            (answer, inr m, k)
      ]
]

contains-canonical_answers :
    (answers : List Text) (answer want : Text)
    → IsIn answer answers
    → canonical_address answer ≡ some want
    → contains (canonical_answers answers) want ≡ true
unfolding canonical_answers
contains-canonical_answers [] answer want m e = elim m [ ]
contains-canonical_answers (x ∷ xs) answer want (inl i) e =
    rw (rw i at e, canonical_answers) (ground (arith, (text_eq_iff want want).1 refl))
contains-canonical_answers (x ∷ xs) answer want (inr m) e =
    let rest = contains-canonical_answers xs answer want m e in
    elim (Option-cases (canonical_address x)) [
      | inl f ↦ rw (f, canonical_answers) rest
      | inr (c, f) ↦ rw (f, canonical_answers) (ground (arith, rest))
    ]

compare_answers-ok :
    (expected : Text) (want : Option Text) (found : List Text)
    → (compare_answers expected want found).status ≡ ok
    → wanted want found ≡ true
unfolding compare_answers
compare_answers-ok expected want [] h = absurd (cc h)
compare_answers-ok expected want (x ∷ found) h = elim (Bool-cases (wanted want (x ∷ found))) [
  | inl e ↦ e
  | inr e ↦ absurd (cc (rw (e, compare_answers) at h))
]

wanted-ok :
    (expected : Text) (want : Option Text) (found : List Text)
    → wanted want found ≡ true
    → (compare_answers expected want found).status ≡ ok
unfolding compare_answers
wanted-ok expected none [] h = absurd (cc h)
wanted-ok expected (some w) [] h = absurd (cc h)
wanted-ok expected want (x ∷ found) h = ap (λ (v : Verdict). v.status) (if_true _ _ h)

wanted-Confirms :
    (expected : Text) (answers : List Text)
    → wanted (canonical_address expected) (canonical_answers answers) ≡ true
    → Confirms expected answers
wanted-Confirms expected answers h = elim (Option-cases (canonical_address expected)) [
  | inl e ↦ absurd (cc (rw e at h))
  | inr (want, e) ↦
      let (answer, m, k) = canonical_answers-contains answers want (rw e at h) in
      (want, answer, m, k, e)
]

Confirms-wanted :
    (expected : Text) (answers : List Text)
    → Confirms expected answers
    → wanted (canonical_address expected) (canonical_answers answers) ≡ true
Confirms-wanted expected answers (want, answer, m, k, e) =
    rw e (contains-canonical_answers answers answer want m k)

-- No answer is an address.
abbrev pub IsUnreadable : Text → Type 0
IsUnreadable answer = canonical_address answer ≡ none

canonical_answers-IsUnreadable :
    (answers : List Text) → canonical_answers answers ≡ [] → All IsUnreadable answers
unfolding canonical_answers
canonical_answers-IsUnreadable [] h = tt
canonical_answers-IsUnreadable (x ∷ xs) h = elim (Option-cases (canonical_address x)) [
  | inl e ↦ (e, canonical_answers-IsUnreadable xs (rw (e, canonical_answers) at h))
  | inr (c, e) ↦ absurd (cc (rw (e, canonical_answers) at h))
]

IsUnreadable-canonical_answers :
    (answers : List Text) → All IsUnreadable answers → canonical_answers answers ≡ []
unfolding canonical_answers
IsUnreadable-canonical_answers [] h = refl
IsUnreadable-canonical_answers (x ∷ xs) h =
    rw (h.0, canonical_answers) (IsUnreadable-canonical_answers xs h.1)

compare_answers-missing :
    (expected : Text) (want : Option Text) (found : List Text)
    → (compare_answers expected want found).status ≡ missing
    → found ≡ []
unfolding compare_answers
compare_answers-missing expected want [] h = refl
compare_answers-missing expected want (x ∷ found) h = elim (Bool-cases (wanted want (x ∷ found))) [
  | inl e ↦ absurd (cc (rw (e, compare_answers) at h))
  | inr e ↦ absurd (cc (rw (e, compare_answers) at h))
]

missing-compare_answers :
    (expected : Text) (want : Option Text) (found : List Text)
    → found ≡ []
    → (compare_answers expected want found).status ≡ missing
unfolding compare_answers
missing-compare_answers expected want [] h = refl
missing-compare_answers expected want (x ∷ found) h = absurd (cc h)

compare_answers-measured :
    (expected : Text) (want : Option Text) (found : List Text)
    → (compare_answers expected want found).status ≢ error
unfolding compare_answers
compare_answers-measured expected want [] h = cc h
compare_answers-measured expected want (x ∷ found) h = elim (Bool-cases (wanted want (x ∷ found))) [
  | inl e ↦ cc (rw (e, compare_answers) at h)
  | inr e ↦ cc (rw (e, compare_answers) at h)
]

-- A check says ERROR exactly when there was no measurement; OK exactly when some answer is the address
-- that is expected; MISSING exactly when there was a measurement and no answer of it is an address.
pub verdict_on_lem :
    (expected : Text) (r : Resolved)
    → ((verdict_on expected r ≡ error) ↔ (is_measured r ≡ false))
      × ((verdict_on expected r ≡ ok) ↔ Confirms expected (answers_of r))
      × ((verdict_on expected r ≡ missing)
          ↔ ((is_measured r ≡ true) × All IsUnreadable (answers_of r)))
unfolding classify_record resolve_one
verdict_on_lem expected (answered answers) = (
  (
    (λ h. absurd (
        compare_answers-measured expected (canonical_address expected) (canonical_answers answers)
          h)),
    (λ h. absurd (cc h)),
  ),
  (
    (λ h.
        wanted-Confirms expected answers
          (compare_answers-ok expected (canonical_address expected) (canonical_answers answers) h)),
    (λ c.
        wanted-ok expected (canonical_address expected) (canonical_answers answers)
          (Confirms-wanted expected answers c)),
  ),
  (
    (λ h. (
      refl,
      canonical_answers-IsUnreadable answers (
          compare_answers-missing expected (canonical_address expected) (canonical_answers answers)
            h),
    )),
    (λ h.
        missing-compare_answers expected (canonical_address expected) (canonical_answers answers)
          (IsUnreadable-canonical_answers answers h.1)),
  ),
)
verdict_on_lem expected nxdomain =
    ((λ h. cc h, λ h. cc h), (λ h. cc h, λ c. elim c.2 [ ]), (λ h. (refl, tt), λ h. refl))
verdict_on_lem expected no_answer =
    ((λ h. cc h, λ h. cc h), (λ h. cc h, λ c. elim c.2 [ ]), (λ h. (refl, tt), λ h. refl))
verdict_on_lem expected no_nameservers =
    ((λ h. refl, λ h. refl), (λ h. cc h, λ c. elim c.2 [ ]), (λ h. cc h, λ h. cc (h.0)))
verdict_on_lem expected timed_out =
    ((λ h. refl, λ h. refl), (λ h. cc h, λ c. elim c.2 [ ]), (λ h. cc h, λ h. cc (h.0)))
verdict_on_lem expected (failed class text) =
    ((λ h. refl, λ h. refl), (λ h. cc h, λ c. elim c.2 [ ]), (λ h. cc h, λ h. cc (h.0)))
