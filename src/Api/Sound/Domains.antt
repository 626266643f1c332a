-- ===== src/Api/Sound/Domains.antt =====
-- Zones and host names stay sound under each change of the rows.
use atrium_ddns.Prelude.{
  ℕ, ◌≡◌, ◌≢◌, ◌⊎◌, inl, inr, refl, sym, ap, ◌∙◌, Bool, true, false, not, List, [], ◌∷◌, ◌++◌, IsIn,
  map, filter, filter-IsIn, IsIn-filter, ◌==◌, Bool-cases, if_true, if_false,
}
use atrium_ddns.Text.{Text}
use atrium_ddns.Store.{Domain, Hostname}
use atrium_ddns.Api.Zones.{rename_row}
use atrium_ddns.Api.Sound.{IsKeyed, IsHoused}

pub IsIn-map :
    {A : Type 0} {B : Type 0} (f : A → B) (xs : List A) (y : B)
    → IsIn y (map f xs)
    → (x : A) × IsIn x xs × (y ≡ f x)
IsIn-map f [] y m = elim m [ ]
IsIn-map f (x ∷ xs) y (inl e) = (x, inl refl, e)
IsIn-map f (x ∷ xs) y (inr m) = let (z, i, e) = IsIn-map f xs y m in (z, inr i, e)

pub map-IsIn :
    {A : Type 0} {B : Type 0} (f : A → B) (xs : List A) (x : A) → IsIn x xs → IsIn (f x) (map f xs)
map-IsIn f [] x m = elim m [ ]
map-IsIn f (y ∷ xs) x (inl e) = inl (ap f e)
map-IsIn f (y ∷ xs) x (inr m) = inr (map-IsIn f xs x m)

pub IsIn-snoc : {A : Type 0} (xs : List A) (a x : A) → IsIn x (xs ++ a ∷ []) → IsIn x xs ⊎ (x ≡ a)
IsIn-snoc [] a x (inl e) = inr e
IsIn-snoc [] a x (inr m) = elim m [ ]
IsIn-snoc (y ∷ ys) a x (inl e) = inl (inl e)
IsIn-snoc (y ∷ ys) a x (inr m) = elim (IsIn-snoc ys a x m) [ inl i ↦ inl (inr i) | inr e ↦ inr e ]

pub snoc-IsIn : {A : Type 0} (xs : List A) (a x : A) → IsIn x xs → IsIn x (xs ++ a ∷ [])
snoc-IsIn [] a x m = elim m [ ]
snoc-IsIn (y ∷ ys) a x (inl e) = inl e
snoc-IsIn (y ∷ ys) a x (inr m) = inr (snoc-IsIn ys a x m)

pub IsIn-last : {A : Type 0} (xs : List A) (a : A) → IsIn a (xs ++ a ∷ [])
IsIn-last [] a = inl refl
IsIn-last (y ∷ ys) a = inr (IsIn-last ys a)

-- An id that no zone has.
abbrev pub IsFreshId : ℕ → List Domain → Type 0
IsFreshId id ds = (d : Domain) → IsIn d ds → d.id ≢ id

pub IsKeyed-snoc :
    (ds : List Domain) (d : Domain) → IsKeyed ds → IsFreshId d.id ds → IsKeyed (ds ++ d ∷ [])
IsKeyed-snoc ds d k f x y mx my e = elim (IsIn-snoc ds d x mx) [
  | inl ix ↦ elim (IsIn-snoc ds d y my) [
    | inl iy ↦ k x y ix iy e
    | inr ey ↦ absurd (f x ix (e ∙ ap (λ (z : Domain). z.id) ey))
  ]
  | inr ex ↦ elim (IsIn-snoc ds d y my) [
    | inl iy ↦ absurd (f y iy (sym e ∙ ap (λ (z : Domain). z.id) ex))
    | inr ey ↦ ex ∙ sym ey
  ]
]

pub IsHoused-snoc :
    (ds : List Domain) (d : Domain) (h : Hostname) → IsHoused ds h → IsHoused (ds ++ d ∷ []) h
IsHoused-snoc ds d h (z, m, e, k) = (z, snoc-IsIn ds d z m, e, k)

pub IsKeyed-filter : (p : Domain → Bool) (ds : List Domain) → IsKeyed ds → IsKeyed (filter p ds)
IsKeyed-filter p ds k x y mx my e =
    k x y (filter-IsIn p ds {x = x} mx).1 (filter-IsIn p ds {x = y} my).1 e

-- A zone goes with its names, so those of other zones keep theirs.
pub IsHoused-remove :
    (ds : List Domain) (id : ℕ) (h : Hostname)
    → (h.domain_id == id) ≡ false
    → IsHoused ds h
    → IsHoused (filter (λ d. not (d.id == id)) ds) h
IsHoused-remove ds id h other (d, m, e, k) =
    let kept : not (d.id == id) ≡ true = rw e (rw other refl) in
    (d, IsIn-filter (λ d. not (d.id == id)) ds {x = d} m kept, e, k)

rename_row-id : (id : ℕ) (name : Text) (d : Domain) → (rename_row id name d).id ≡ d.id
rename_row-id id name d = elim (Bool-cases (d.id == id)) [
  | inl e ↦ ap (λ (x : Domain). x.id) (if_true _ _ e)
  | inr e ↦ ap (λ (x : Domain). x.id) (if_false _ _ e)
]

pub IsKeyed-rename :
    (id : ℕ) (name : Text) (ds : List Domain) → IsKeyed ds → IsKeyed (map (rename_row id name) ds)
IsKeyed-rename id name ds k x y mx my e =
    let (x0, ix, ex) = IsIn-map (rename_row id name) ds x mx in
    let (y0, iy, ey) = IsIn-map (rename_row id name) ds y my in
    let same : x0 ≡ y0 = k x0 y0 ix iy (
      sym (rename_row-id id name x0)
      ∙ ap (λ (z : Domain). z.id) (sym ex)
      ∙ e
      ∙ ap (λ (z : Domain). z.id) ey
      ∙ rename_row-id id name y0) in
    ex ∙ ap (rename_row id name) same ∙ sym ey
