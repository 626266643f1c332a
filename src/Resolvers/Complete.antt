-- ===== src/Resolvers/Complete.antt =====
-- What becomes of every entry.
use atrium_ddns.Prelude.{
  ◌≡◌, ◌⊎◌, inl, inr, refl, sym, subst, true, some, List, [], ◌∷◌, ◌++◌, IsIn, All, Bool-cases,
  Option-cases,
}
use mathlib.Core.Option.{some_inj}
use atrium_ddns.Text.{Text, strip, is_empty, contains, text_eq, text_eq_iff}
use atrium_ddns.Resolvers.{canonical, append_new, add_resolver, normalise_from, normalise_resolvers}

-- A blank entry, or one whose address is in the list.
pub IsServed : List Text → Text → Type 0
IsServed out raw =
    (is_empty (strip raw) ≡ true) ⊎ ((a : Text) × (canonical (strip raw) ≡ some a) × IsIn a out)

contains-IsIn : (xs : List Text) (x : Text) → contains xs x ≡ true → IsIn x xs
contains-IsIn [] x h = absurd (cc h)
contains-IsIn (y ∷ ys) x h = elim (Bool-cases (text_eq y x)) [
  | inl e ↦ inl (sym ((text_eq_iff y x).0 e))
  | inr e ↦ inr (contains-IsIn ys x (rw (e, contains) at h))
]

IsIn-append : (xs ys : List Text) (x : Text) → IsIn x xs ⊎ IsIn x ys → IsIn x (xs ++ ys)
IsIn-append [] ys x (inl m) = elim m [ ]
IsIn-append [] ys x (inr m) = m
IsIn-append (z ∷ zs) ys x (inl (inl e)) = inl e
IsIn-append (z ∷ zs) ys x (inl (inr m)) = inr (IsIn-append zs ys x (inl m))
IsIn-append (z ∷ zs) ys x (inr m) = inr (IsIn-append zs ys x (inr m))

-- Nothing that is there is dropped.
abbrev Grows : List Text → List Text → Type 0
Grows out next = (x : Text) → IsIn x out → IsIn x next

append_new-Grows :
    (out : List Text) (a : Text) → Grows out (append_new out a) × IsIn a (append_new out a)
append_new-Grows out a = elim (Bool-cases (contains out a)) [
  | inl e ↦ rw e ((λ x m. m), contains-IsIn out a e)
  | inr e ↦
      rw e
        ((λ x m. IsIn-append out (a ∷ []) x (inl m)), IsIn-append out (a ∷ []) a (inr (inl refl)))
]

add_resolver-Grows :
    (out : List Text) (raw : Text) {next : List Text}
    → add_resolver out (strip raw) ≡ some next
    → Grows out next × IsServed next raw
unfolding IsServed
add_resolver-Grows out raw {next} h = elim (Bool-cases (is_empty (strip raw))) [
  | inl e ↦ (subst (Grows out) (some_inj.0 (rw e at h)) (λ x m. m), inl e)
  | inr e ↦ elim (Option-cases (canonical (strip raw))) [
    | inl f ↦ absurd (cc (rw (e, f) at h))
    | inr (a, f) ↦
        let same = some_inj.0 (rw (e, f) at h) in
        (
          subst (Grows out) same (append_new-Grows out a).0,
          inr (a, f, subst (IsIn a) same (append_new-Grows out a).1),
        )
  ]
]

IsServed-Grows :
    (out next : List Text) (raw : Text) → Grows out next → IsServed out raw → IsServed next raw
unfolding IsServed
IsServed-Grows out next raw g (inl e) = inl e
IsServed-Grows out next raw g (inr (a, f, m)) = inr (a, f, g a m)

normalise_from-Grows :
    (out values : List Text) {result : List Text}
    → normalise_from out values ≡ some result
    → Grows out result × All (IsServed result) values
unfolding normalise_from
normalise_from-Grows out [] h = (subst (Grows out) (some_inj.0 h) (λ x m. m), tt)
normalise_from-Grows out (raw ∷ values) {result} h =
    elim (Option-cases (add_resolver out (strip raw))) [
      | inl e ↦ absurd (cc (rw (e, normalise_from) at h))
      | inr (next, e) ↦
          let first = add_resolver-Grows out raw {next = next} e in
          let rest =
            normalise_from-Grows next values {result = result} (rw (e, normalise_from) at h) in
          ((λ x m. rest.0 x (first.0 x m)), (IsServed-Grows next result raw rest.0 first.1, rest.1))
    ]

-- In a list that is accepted every entry is blank or an address, and the canonical form of each address
-- is in the result.
pub normalise_resolvers-IsServed :
    (values : List Text) {result : List Text}
    → normalise_resolvers values ≡ some result
    → All (IsServed result) values
unfolding normalise_resolvers
normalise_resolvers-IsServed values {result} h =
    (normalise_from-Grows [] values {result = result} h).1
