-- ===== src/Resolvers/Canonical.antt =====
-- What the normalised list holds.
use atrium_ddns.Prelude.{
  ◌≡◌, ◌⊎◌, inl, inr, sym, false, some, List, [], ◌∷◌, ◌++◌, IsIn, Bool-cases, Option-cases, arith,
  subst,
}
use mathlib.Core.Option.{some_inj}
use atrium_ddns.Text.{Text, strip, is_empty, contains, text_eq_iff}
use atrium_ddns.Resolvers.{canonical, append_new, add_resolver, normalise_from, normalise_resolvers}

-- No element stands in the list twice.
abbrev pub IsUnique : List Text → Type 0
IsUnique [] = Unit
IsUnique (x ∷ xs) = (¬ IsIn x xs) × IsUnique xs

contains-IsIn : (xs : List Text) (x : Text) → contains xs x ≡ false → ¬ IsIn x xs
contains-IsIn [] x h m = elim m [ ]
contains-IsIn (y ∷ ys) x h m = ground (arith, contains-IsIn ys x, text_eq_iff y x)

IsIn-snoc : (xs : List Text) (a x : Text) → IsIn x (xs ++ a ∷ []) → IsIn x xs ⊎ (x ≡ a)
IsIn-snoc [] a x (inl e) = inr e
IsIn-snoc [] a x (inr m) = elim m [ ]
IsIn-snoc (y ∷ ys) a x (inl e) = inl (inl e)
IsIn-snoc (y ∷ ys) a x (inr m) = elim (IsIn-snoc ys a x m) [ inl i ↦ inl (inr i) | inr e ↦ inr e ]

IsUnique-snoc : (xs : List Text) (a : Text) → IsUnique xs → ¬ IsIn a xs → IsUnique (xs ++ a ∷ [])
IsUnique-snoc [] a u n = ((λ m. elim m [ ]), tt)
IsUnique-snoc (x ∷ xs) a u n = (
  (λ m. elim (IsIn-snoc xs a x m) [ inl i ↦ u.0 i | inr e ↦ n (inl (sym e)) ]),
  IsUnique-snoc xs a u.1 (λ i. n (inr i)),
)

append_new-IsUnique : (out : List Text) (a : Text) → IsUnique out → IsUnique (append_new out a)
append_new-IsUnique out a u = elim (Bool-cases (contains out a)) [
  | inl e ↦ rw e u
  | inr e ↦ rw e (IsUnique-snoc out a u (contains-IsIn out a e))
]

add_resolver-IsUnique :
    (out : List Text) (text : Text) {next : List Text}
    → IsUnique out
    → add_resolver out text ≡ some next
    → IsUnique next
add_resolver-IsUnique out text {next} u h = elim (Bool-cases (is_empty text)) [
  | inl e ↦ subst IsUnique (some_inj.0 (rw e at h)) u
  | inr e ↦ elim (Option-cases (canonical text)) [
    | inl f ↦ absurd (cc (rw (e, f) at h))
    | inr (a, f) ↦ subst IsUnique (some_inj.0 (rw (e, f) at h)) (append_new-IsUnique out a u)
  ]
]

normalise_from-IsUnique :
    (out values : List Text) {result : List Text}
    → IsUnique out
    → normalise_from out values ≡ some result
    → IsUnique result
unfolding normalise_from
normalise_from-IsUnique out [] u h = subst IsUnique (some_inj.0 h) u
normalise_from-IsUnique out (raw ∷ values) {result} u h =
    elim (Option-cases (add_resolver out (strip raw))) [
      | inl e ↦ absurd (cc (rw (e, normalise_from) at h))
      | inr (next, e) ↦
          normalise_from-IsUnique next values {result = result}
            (add_resolver-IsUnique out (strip raw) {next = next} u e) (rw (e, normalise_from) at h)
    ]

-- Each address of a list that is accepted stands there once.
pub normalise_resolvers-IsUnique :
    (values : List Text) {result : List Text}
    → normalise_resolvers values ≡ some result
    → IsUnique result
unfolding normalise_resolvers
normalise_resolvers-IsUnique values {result} h =
    normalise_from-IsUnique [] values {result = result} tt h
