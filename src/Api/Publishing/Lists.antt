-- ===== src/Api/Publishing/Lists.antt =====
-- Lists of ids and of bindings, as the selection of a name needs them.
use atrium_ddns.Prelude.{
  ℕ, ◌≡◌, inl, inr, refl, sym, ap, Bool, true, false, ◌&&◌, ◌||◌, not, List, [], ◌∷◌, ◌++◌, IsIn,
  any, filter, map, ◌==◌, arith, Bool-cases, IsIn-filter, filter-IsIn, any-some, ==_refl, ◌∙◌,
}
use atrium_ddns.Store.{Backend, Selected}
use atrium_ddns.Store.Selection.{pick, is_chosen}
use atrium_ddns.Api.Publishing.{has_id, has_none, ids_of, distinct, unknown}

module _ {A : Type 0} where
  pub any-IsIn : (p : A → Bool) (xs : List A) {x : A} → IsIn x xs → p x ≡ true → any p xs ≡ true
  any-IsIn p [] m h = elim m [ ]
  any-IsIn p (y ∷ ys) {x} m h = ground (arith, any-IsIn p ys {x = x})

  pub any-append : (p : A → Bool) (xs ys : List A) → any p (xs ++ ys) ≡ (any p xs || any p ys)
  any-append p [] ys = refl
  any-append p (x ∷ xs) ys = ground (arith, any-append p xs ys)

  pub filter_same :
      (p q : A → Bool) (xs : List A) → ((x : A) → IsIn x xs → p x ≡ q x) → filter p xs ≡ filter q xs
  filter_same p q [] h = refl
  filter_same p q (x ∷ xs) h = rw (h x (inl refl), filter_same p q xs (λ y m. h y (inr m))) refl

  pub filter_nothing : (p : A → Bool) (xs : List A) → ((x : A) → p x ≡ false) → filter p xs ≡ []
  filter_nothing p [] h = refl
  filter_nothing p (x ∷ xs) h = rw (h x) (filter_nothing p xs h)

-- Without repetitions the same ids.
has_id-filter :
    (ids : List ℕ) (id x : ℕ)
    → has_id (filter (λ y. not (y == id)) ids) x ≡ (has_id ids x && not (x == id))
has_id-filter [] id x = refl
has_id-filter (y ∷ ids) id x = ground (arith, has_id-filter ids id x)

pub has_id-distinct : (ids : List ℕ) (x : ℕ) → has_id (distinct ids) x ≡ has_id ids x
unfolding distinct
has_id-distinct [] x = refl
has_id-distinct (id ∷ ids) x =
    ground (arith, has_id-filter (distinct ids) id x, has_id-distinct ids x)

pub has_none-distinct : (ids : List ℕ) → has_none (distinct ids) ≡ has_none ids
unfolding distinct
has_none-distinct [] = refl
has_none-distinct (id ∷ ids) = refl

-- A known id is that of a binding.
pub has_id-IsIn :
    (bs : List Backend) (id : ℕ)
    → has_id (ids_of bs) id ≡ true
    → (b : Backend) × IsIn b bs × (b.id ≡ id)
has_id-IsIn [] id h = absurd (cc h)
has_id-IsIn (b ∷ bs) id h = elim (Bool-cases (b.id == id)) [
  | inl e ↦ (b, inl refl, ground arith)
  | inr e ↦ let (x, m, k) = has_id-IsIn bs id (rw e at h) in (x, inr m, k)
]

-- The requested bindings of a list, or all of it.
abbrev pub chosen_of : List ℕ → List Backend → List Backend
chosen_of [] bs = bs
chosen_of (id ∷ ids) bs = filter (λ b. has_id (id ∷ ids) b.id) bs

nonempty-pick :
    (cs bs : List Backend) (c : Backend)
    → IsIn c cs
    → pick cs bs ≡ filter (λ b. any (λ x. x.id == b.id) cs) bs
nonempty-pick [] bs c m = elim m [ ]
nonempty-pick (x ∷ cs) bs c m = refl

-- What the rows of the requested ids pick out of the bindings of a zone.
pub pick-chosen :
    (ids : List ℕ) (all bs : List Backend)
    → ((b : Backend) → IsIn b bs → IsIn b all)
    → has_none (unknown ids bs) ≡ true
    → pick (filter (λ b. has_id ids b.id) all) bs ≡ chosen_of ids bs
pick-chosen [] all bs sub known =
    ap (λ cs. pick cs bs) (filter_nothing (λ b. has_id [] b.id) all (λ b. refl))
pick-chosen (id ∷ ids) all bs sub known = elim (Bool-cases (has_id (ids_of bs) id)) [
  | inr e ↦ absurd (cc (rw e at known))
  | inl e ↦
      let q : Backend → Bool = λ b. has_id (id ∷ ids) b.id in
      let (b, m, k) = has_id-IsIn bs id e in
      let first : q b ≡ true = rw (k, ==_refl id) refl in
      nonempty-pick (filter q all) bs b (IsIn-filter q all {x = b} (sub b m) first)
      ∙ filter_same (λ b. any (λ x. x.id == b.id) (filter q all)) q bs
          (λ y my. elim (Bool-cases (q y)) [
            | inl here ↦
                any-IsIn (λ (x : Backend). x.id == y.id) (filter q all) {x = y}
                  (IsIn-filter q all {x = y} (sub y my) here) (==_refl y.id)
                ∙ sym here
            | inr missing ↦ elim (Bool-cases (any (λ (x : Backend). x.id == y.id) (filter q all))) [
              | inr f ↦ f ∙ sym missing
              | inl f ↦
                  let (x, mx, hx) = any-some (λ (x : Backend). x.id == y.id) (filter q all) f in
                  let same : x.id ≡ y.id = ground (arith, hx) in
                  let held = (filter-IsIn q all {x = x} mx).0 in
                  absurd (cc (held, missing, ap (has_id (id ∷ ids)) same))
            ]
          ])
]

-- A selection of one name says nothing of another.
pub is_chosen-map :
    (ids : List ℕ) (hid id bid : ℕ)
    → is_chosen (map (λ x. record { hostname_id = id; backend_id = x }) ids) hid bid
      ≡ (id == hid && has_id ids bid)
is_chosen-map [] hid id bid = ground arith
is_chosen-map (x ∷ ids) hid id bid = ground (arith, is_chosen-map ids hid id bid)

pub is_chosen-gone :
    (p : Selected → Bool) (ss : List Selected) (hid bid : ℕ)
    → ((s : Selected) → (s.hostname_id == hid) ≡ true → p s ≡ false)
    → is_chosen (filter p ss) hid bid ≡ false
is_chosen-gone p [] hid bid h = refl
is_chosen-gone p (s ∷ ss) hid bid h = ground (arith, is_chosen-gone p ss hid bid h, h s)

pub is_chosen-kept :
    (p : Selected → Bool) (ss : List Selected) (hid bid : ℕ)
    → ((s : Selected) → (s.hostname_id == hid) ≡ true → p s ≡ true)
    → is_chosen (filter p ss) hid bid ≡ is_chosen ss hid bid
is_chosen-kept p [] hid bid h = refl
is_chosen-kept p (s ∷ ss) hid bid h = ground (arith, is_chosen-kept p ss hid bid h, h s)
