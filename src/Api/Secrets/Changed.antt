-- ===== src/Api/Secrets/Changed.antt =====
-- The bindings after a change of one.
use atrium_ddns.Prelude.{
  ℕ, ◌≡◌, ◌↔◌, inl, inr, refl, sym, ap, ◌∙◌, subst, Bool, true, false, some, List, [], ◌∷◌, IsIn,
  map, find?, ◌==◌, Bool-cases, if_true, if_false, if◌then◌else◌,
}
use atrium_ddns.Store.{Backend}
use atrium_ddns.Api.Backends.{change_backend}
use atrium_ddns.Api.Sound.Domains.{IsIn-map}

-- A list that begins with the row that is looked for, and one that does not.
find?-here :
    (p : Backend → Bool) (x : Backend) (xs : List Backend) → p x ≡ true → find? p (x ∷ xs) ≡ some x
find?-here p x xs h = rw h refl

find?-later :
    (p : Backend → Bool) (x : Backend) (xs : List Backend)
    → p x ≡ false
    → find? p (x ∷ xs) ≡ find? p xs
find?-later p x xs h = rw h refl

pub find?-change_backend :
    (p : Backend → Bool) (id : ℕ) (b b' : Backend) (xs : List Backend)
    → ((y : Backend) → p y ≡ true → (y.id == id) ≡ true)
    → p b' ≡ true
    → find? p xs ≡ some b
    → find? p (change_backend id b' xs) ≡ some b'
find?-change_backend p id b b' [] k hit e = absurd (cc e)
find?-change_backend p id b b' (x ∷ xs) k hit e =
    let rest = change_backend id b' xs in
    elim (Bool-cases (x.id == id)) [
      | inl same ↦ ap (λ y. find? p (y ∷ rest)) (if_true b' x same) ∙ find?-here p b' rest hit
      | inr other ↦
          let unseen : p x ≡ false = elim (Bool-cases (p x)) [
            | inl seen ↦ absurd (cc (k x seen, other))
            | inr h ↦ h
          ] in
          ap (λ y. find? p (y ∷ rest)) (if_false b' x other)
          ∙ find?-later p x rest unseen
          ∙ find?-change_backend p id b b' xs k hit (sym (find?-later p x xs unseen) ∙ e)
    ]

IsIn-mapped :
    (f : Backend → Backend) (xs : List Backend) (x : Backend) → IsIn x xs → IsIn (f x) (map f xs)
IsIn-mapped f [] x m = elim m [ ]
IsIn-mapped f (y ∷ ys) x m = elim m [
  | inl e ↦ inl (ap f e)
  | inr later ↦ inr (IsIn-mapped f ys x later)
]

pub IsIn-change_backend :
    (id : ℕ) (b' : Backend) (xs : List Backend) (x : Backend)
    → (b'.id == id) ≡ true
    → (x.id == id) ≡ false
    → IsIn x (change_backend id b' xs) ↔ IsIn x xs
IsIn-change_backend id b' xs x hit other = (
  (λ m.
      let (y, my, e) = IsIn-map (λ (z : Backend). if z.id == id then b' else z) xs x m in
      elim (Bool-cases (y.id == id)) [
        | inl same ↦
            absurd (cc (ap (λ (z : Backend). z.id == id) (e ∙ if_true b' y same), hit, other))
        | inr differs ↦ subst (λ z. IsIn z xs) (sym (e ∙ if_false b' y differs)) my
      ]),
  (λ m.
      subst (λ z. IsIn z (change_backend id b' xs)) (if_false b' x other)
        (IsIn-mapped (λ (z : Backend). if z.id == id then b' else z) xs x m)),
)
