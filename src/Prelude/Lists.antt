-- ===== src/Prelude/Lists.antt =====
-- Lists measured by native numbers, searched by Boolean tests, and predicates over them.
use Prim.Native.Nat.{ℕ, zero, suc, ◌+◌, ◌≤◌}
use mathlib.Core.Path.{◌≡◌, refl}
use mathlib.Core.Logic.{◌⊎◌, inl, inr}
use mathlib.Core.Bool.{Bool, true, false, ◌&&◌, ◌||◌}
use mathlib.Core.Option.{Option, none, some}
use mathlib.Core.List.{List, [], ◌∷◌, ◌++◌, map}
use native.Mathlib.Omega.{arith}
use atrium_ddns.Prelude.Tests.{if◌then◌else◌, Bool-cases}

module _ {ℓ} {A : Type ℓ} where
  abbrev pub length : List A → ℕ
  length [] = 0
  length (x ∷ xs) = suc (length xs)

  pub length-append : (xs ys : List A) → length (xs ++ ys) ≡ length xs + length ys
  length-append [] ys = omega arith
  length-append (x ∷ xs) ys = omega (arith, length-append xs ys)

  -- A predicate on every element, by recursion.
  abbrev pub All {κ} : (A → Type κ) → List A → Type κ
  All P [] = Unit
  All P (x ∷ xs) = P x × All P xs

  -- `[x for x in xs if p(x)]`, `any(…)`, `all(…)`, and `next(…)` or `.first()`.
  abbrev pub filter : (A → Bool) → List A → List A
  filter p [] = []
  filter p (x ∷ xs) = let rest = filter p xs in if p x then x ∷ rest else rest

  abbrev pub any : (A → Bool) → List A → Bool
  any p [] = false
  any p (x ∷ xs) = p x || any p xs

  abbrev pub all : (A → Bool) → List A → Bool
  all p [] = true
  all p (x ∷ xs) = p x && all p xs

  abbrev pub find? : (A → Bool) → List A → Option A
  find? p [] = none
  find? p (x ∷ xs) = let rest = find? p xs in if p x then some x else rest

  -- `xs[:n]` and `xs[n:]`.
  abbrev pub take : ℕ → List A → List A
  take zero xs = []
  take (suc n) [] = []
  take (suc n) (x ∷ xs) = x ∷ take n xs

  abbrev pub drop : ℕ → List A → List A
  drop zero xs = xs
  drop (suc n) [] = []
  drop (suc n) (x ∷ xs) = drop n xs

  -- `[a] * n`.
  abbrev pub replicate : ℕ → A → List A
  replicate zero a = []
  replicate (suc n) a = a ∷ replicate n a

-- The element stands in the list.
abbrev pub IsIn : {A : Type 0} → A → List A → Type 0
IsIn a [] = ⊥
IsIn a (x ∷ xs) = (a ≡ x) ⊎ IsIn a xs

module _ {ℓ} {A : Type ℓ} where
  pub All-append {κ} : (P : A → Type κ) (xs ys : List A) → All P xs → All P ys → All P (xs ++ ys)
  All-append P [] ys hx hy = hy
  All-append P (x ∷ xs) ys hx hy = (hx.0, All-append P xs ys hx.1 hy)

  pub length-filter : (p : A → Bool) (xs : List A) → length (filter p xs) ≤ length xs
  length-filter p [] = omega arith
  length-filter p (x ∷ xs) = ground (arith, length-filter p xs)

module _ {A : Type 0} where
  pub find?-some :
      (p : A → Bool) (xs : List A) {a : A} → find? p xs ≡ some a → (p a ≡ true) × IsIn a xs
  find?-some p [] h = cc
  find?-some p (x ∷ xs) {a} h = ground (arith, find?-some p xs {a = a})

  pub filter-IsIn :
      (p : A → Bool) (xs : List A) {x : A} → IsIn x (filter p xs) → (p x ≡ true) × IsIn x xs
  filter-IsIn p [] m = elim m [ ]
  filter-IsIn p (y ∷ ys) {x} m = ground (arith, filter-IsIn p ys {x = x})

  pub find?-none :
      (p : A → Bool) (xs : List A) {x : A} → find? p xs ≡ none → IsIn x xs → p x ≡ false
  find?-none p [] h m = elim m [ ]
  find?-none p (y ∷ ys) {x} h m = ground (arith, find?-none p ys {x = x})

  pub any-some : (p : A → Bool) (xs : List A) → any p xs ≡ true → (x : A) × IsIn x xs × (p x ≡ true)
  any-some p [] h = absurd (cc h)
  any-some p (y ∷ ys) h = elim (Bool-cases (p y)) [
    | inl e ↦ (y, inl refl, e)
    | inr e ↦ let (x, m, k) = any-some p ys (rw e at h) in (x, inr m, k)
  ]

  pub IsIn-filter :
      (p : A → Bool) (xs : List A) {x : A} → IsIn x xs → p x ≡ true → IsIn x (filter p xs)
  IsIn-filter p [] m h = elim m [ ]
  IsIn-filter p (y ∷ ys) {x} m h = ground (arith, IsIn-filter p ys {x = x})

  pub All-map :
      {B : Type 0} (P : B → Type 0) (f : A → B) (xs : List A)
      → ((x : A) → IsIn x xs → P (f x))
      → All P (map f xs)
  All-map P f [] h = tt
  All-map P f (x ∷ xs) h = (h x (inl refl), All-map P f xs (λ y m. h y (inr m)))

  pub All-IsIn : (P : A → Type 0) (xs : List A) → ((x : A) → IsIn x xs → P x) → All P xs
  All-IsIn P [] h = tt
  All-IsIn P (x ∷ xs) h = (h x (inl refl), All-IsIn P xs (λ y m. h y (inr m)))
