-- ===== src/Provider/Zones/Closest.antt =====
-- The hosted zone that a domain is bound to.
use atrium_ddns.Prelude.{
  ◌≡◌, refl, ◌≤◌, Option, none, some, List, [], ◌∷◌, inl, inr, IsIn, true, false, arith, Bool-cases,
  length, if◌then◌else◌, ltb, All, All-IsIn, ◌⊎◌,
}
use atrium_ddns.Text.{Text}
use atrium_ddns.Provider.Zones.{closest, encloses, longer_than}

-- A candidate, once there is one, encloses the domain.
abbrev pub IsCandidate : Text → Option Text → Type 0
IsCandidate domain none = Unit
IsCandidate domain (some best) = encloses best domain ≡ true

-- What is chosen, if anything, is one of the names.
abbrev pub IsHosted : List Text → Option Text → Type 0
IsHosted names none = Unit
IsHosted names (some best) = IsIn best names

-- What a candidate says of the names passed so far: each that encloses the domain is no longer.
abbrev Covers : Text → Option Text → Text → Type 0
Covers domain none name = encloses name domain ≡ false
Covers domain (some best) name = encloses name domain ≡ true → length name ≤ length best

abbrev next_best : Text → Option Text → Text → Option Text
next_best domain best name =
    if encloses name domain then (if longer_than name best then some name else best) else best

next_best-IsCandidate :
    (domain : Text) (best : Option Text) (name : Text)
    → IsCandidate domain best
    → IsCandidate domain (next_best domain best name)
next_best-IsCandidate domain none name c = elim (Bool-cases (encloses name domain)) [
  | inl e ↦ rw e e
  | inr e ↦ rw e tt
]
next_best-IsCandidate domain (some best) name c = elim (Bool-cases (encloses name domain)) [
  | inl e ↦ elim (Bool-cases (ltb (length best) (length name))) [
    | inl l ↦ rw (e, l) e
    | inr l ↦ rw (e, l) c
  ]
  | inr e ↦ rw e c
]

next_best-Covers_new :
    (domain : Text) (best : Option Text) (name : Text)
    → Covers domain (next_best domain best name) name
next_best-Covers_new domain none name = elim (Bool-cases (encloses name domain)) [
  | inl e ↦ rw e (λ _. omega arith)
  | inr e ↦ rw e e
]
next_best-Covers_new domain (some best) name = elim (Bool-cases (encloses name domain)) [
  | inl e ↦ elim (Bool-cases (ltb (length best) (length name))) [
    | inl l ↦ rw (e, l) (λ _. omega arith)
    | inr l ↦ rw (e, l) (λ _. ground arith)
  ]
  | inr e ↦ rw e (λ f. ground arith)
]

next_best-Covers_old :
    (domain : Text) (best : Option Text) (name n : Text)
    → Covers domain best n
    → Covers domain (next_best domain best name) n
next_best-Covers_old domain none name n c = elim (Bool-cases (encloses name domain)) [
  | inl e ↦ rw e (λ f. ground arith)
  | inr e ↦ rw e c
]
next_best-Covers_old domain (some best) name n c = elim (Bool-cases (encloses name domain)) [
  | inl e ↦ elim (Bool-cases (ltb (length best) (length name))) [
    | inl l ↦ rw (e, l) (λ f. ground (arith, c f))
    | inr l ↦ rw (e, l) c
  ]
  | inr e ↦ rw e c
]

closest-IsCandidate :
    (domain : Text) (best : Option Text) (names : List Text)
    → IsCandidate domain best
    → IsCandidate domain (closest domain best names)
unfolding closest
closest-IsCandidate domain best [] c = c
closest-IsCandidate domain best (name ∷ names) c =
    closest-IsCandidate domain (next_best domain best name) names
      (next_best-IsCandidate domain best name c)

closest-Covers_old :
    (domain : Text) (best : Option Text) (names : List Text) (n : Text)
    → Covers domain best n
    → Covers domain (closest domain best names) n
unfolding closest
closest-Covers_old domain best [] n c = c
closest-Covers_old domain best (name ∷ names) n c =
    closest-Covers_old domain (next_best domain best name) names n
      (next_best-Covers_old domain best name n c)

closest-Covers :
    (domain : Text) (best : Option Text) (names : List Text) (n : Text)
    → IsIn n names
    → Covers domain (closest domain best names) n
unfolding closest
closest-Covers domain best [] n m = elim m [ ]
closest-Covers domain best (name ∷ names) n (inl e) =
    closest-Covers_old domain (next_best domain best name) names n
      (rw e (next_best-Covers_new domain best name))
closest-Covers domain best (name ∷ names) n (inr m) =
    closest-Covers domain (next_best domain best name) names n m

-- A zone that does not enclose the domain, or is no longer than the one chosen.
pub IsCovered : Text → Option Text → Text → Type 0
IsCovered domain none name = encloses name domain ≡ false
IsCovered domain (some best) name = (encloses name domain ≡ false) ⊎ (length name ≤ length best)

Covers-IsCovered :
    (domain : Text) (o : Option Text) (name : Text) → Covers domain o name → IsCovered domain o name
unfolding IsCovered
Covers-IsCovered domain none name c = c
Covers-IsCovered domain (some best) name c = elim (Bool-cases (encloses name domain)) [
  | inl e ↦ inr (c e)
  | inr e ↦ inl e
]

next_best-IsHosted :
    (domain : Text) (names : List Text) (best : Option Text) (name : Text)
    → IsIn name names
    → IsHosted names best
    → IsHosted names (next_best domain best name)
next_best-IsHosted domain names none name m h = elim (Bool-cases (encloses name domain)) [
  | inl e ↦ rw e m
  | inr e ↦ rw e tt
]
next_best-IsHosted domain names (some best) name m h = elim (Bool-cases (encloses name domain)) [
  | inl e ↦ elim (Bool-cases (ltb (length best) (length name))) [
    | inl l ↦ rw (e, l) m
    | inr l ↦ rw (e, l) h
  ]
  | inr e ↦ rw e h
]

closest-IsHosted :
    (domain : Text) (all : List Text) (best : Option Text) (names : List Text)
    → ((n : Text) → IsIn n names → IsIn n all)
    → IsHosted all best
    → IsHosted all (closest domain best names)
unfolding closest
closest-IsHosted domain all best [] sub h = h
closest-IsHosted domain all best (name ∷ names) sub h =
    closest-IsHosted domain all (next_best domain best name) names (λ n m. sub n (inr m))
      (next_best-IsHosted domain all best name (sub name (inl refl)) h)

-- What is chosen for a domain is one of the hosted zones and encloses the domain, and no hosted zone that
-- encloses it is longer; when none is chosen, none encloses it.
pub closest_enclosing :
    (domain : Text) (names : List Text)
    → IsHosted names (closest domain none names)
      × IsCandidate domain (closest domain none names)
      × All (IsCovered domain (closest domain none names)) names
closest_enclosing domain names = (
  closest-IsHosted domain names none names (λ n m. m) tt,
  closest-IsCandidate domain none names tt,
  All-IsIn (IsCovered domain (closest domain none names)) names (λ name m.
      Covers-IsCovered domain (closest domain none names) name
        (closest-Covers domain none names name m)),
)
