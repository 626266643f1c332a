-- ===== src/Api/Publishing/Choices.antt =====
-- The selection rows of a name after a choice.
use atrium_ddns.Prelude.{
  ℕ, ◌≡◌, inl, inr, refl, sym, ◌∙◌, Bool, true, false, ◌&&◌, ◌||◌, not, Option, none, some, List,
  [], ◌∷◌, ◌++◌, IsIn, filter, map, ◌==◌, ==_refl, arith, Bool-cases, if_true, if_false,
}
use atrium_ddns.Store.{Tables, Hostname, Selected}
use atrium_ddns.Store.Selection.{is_chosen}
use atrium_ddns.Scope.{
  DdnsScope, sees, predicate, reaches_all_tenants, admin, hostname, admits, Permission, selection,
  owns_hostname, owns_selection,
}
use atrium_ddns.Api.Publishing.{select_backends, has_id}
use atrium_ddns.Api.Publishing.Lists.{
  any-IsIn, any-append, is_chosen-map, is_chosen-gone, is_chosen-kept,
}

owner_mono :
    (o : Option ℕ) (p q : ℕ → Bool)
    → ((uid : ℕ) → p uid ≡ true → q uid ≡ true)
    → elim o [ none ↦ false | some uid ↦ p uid ] ≡ true
    → elim o [ none ↦ false | some uid ↦ q uid ] ≡ true
owner_mono none p q f h = absurd (cc h)
owner_mono (some uid) p q f h = f uid h

admits_mono :
    (scope : DdnsScope) (lifting : List Permission) (p q : ℕ → Bool)
    → ((uid : ℕ) → p uid ≡ true → q uid ≡ true)
    → admits scope lifting p ≡ true
    → admits scope lifting q ≡ true
unfolding admits
admits_mono scope lifting p q f h = elim (Bool-cases (reaches_all_tenants scope lifting)) [
  | inl all ↦ if_true _ _ all
  | inr own ↦ if_false _ _ own ∙ owner_mono scope.user_id p q f (sym (if_false _ _ own) ∙ h)
]

-- Who sees a name sees its selection.
sees_selection :
    (scope : DdnsScope) (t : Tables) (h : Hostname) (s : Selected)
    → IsIn h t.hostnames
    → sees scope hostname (owns_hostname t h) ≡ true
    → (s.hostname_id == h.id) ≡ true
    → sees scope selection (owns_selection t s) ≡ true
unfolding predicate
sees_selection scope t h s m v e =
    admits_mono scope (admin ∷ []) (owns_hostname t h) (owns_selection t s)
      (λ uid own.
        any-IsIn (λ (x : Hostname). x.id == s.hostname_id && owns_hostname t x uid) t.hostnames
          {x = h} m (ground (arith, own, e)))
      v

is_chosen-append :
    (xs ys : List Selected) (hid bid : ℕ)
    → is_chosen (xs ++ ys) hid bid ≡ (is_chosen xs hid bid || is_chosen ys hid bid)
is_chosen-append xs ys hid bid =
    any-append (λ (s : Selected). s.hostname_id == hid && s.backend_id == bid) xs ys

-- The rows of a choice.
abbrev rows_of : ℕ → List ℕ → List Selected
rows_of id ids = map (λ backend_id. record { hostname_id = id; backend_id = backend_id }) ids

abbrev stays_selected : DdnsScope → Tables → ℕ → Selected → Bool
stays_selected scope t id s = not (s.hostname_id == id && sees scope selection (owns_selection t s))

-- After a choice, the name's selection is what was chosen, and that of another name is as it was.
pub is_chosen-select_backends :
    (scope : DdnsScope) (t : Tables) (h : Hostname) (ids : List ℕ) (bid : ℕ)
    → IsIn h t.hostnames
    → sees scope hostname (owns_hostname t h) ≡ true
    → is_chosen (select_backends scope t h.id ids) h.id bid ≡ has_id ids bid
unfolding select_backends
is_chosen-select_backends scope t h ids bid m v =
    let gone =
      is_chosen-gone (stays_selected scope t h.id) t.selections h.id bid
        (λ s e. let w = sees_selection scope t h s m v e in rw (e, w) refl) in
    is_chosen-append (filter (stays_selected scope t h.id) t.selections) (rows_of h.id ids) h.id bid
    ∙ rw (gone, is_chosen-map ids h.id h.id bid, ==_refl h.id) refl

pub is_chosen-others :
    (scope : DdnsScope) (t : Tables) (id hid : ℕ) (ids : List ℕ) (bid : ℕ)
    → (hid == id) ≡ false
    → is_chosen (select_backends scope t id ids) hid bid ≡ is_chosen t.selections hid bid
unfolding select_backends
is_chosen-others scope t id hid ids bid n =
    let kept =
      is_chosen-kept (stays_selected scope t id) t.selections hid bid (λ s e.
        let other : (s.hostname_id == id) ≡ false = ground (arith, e, n) in rw other refl) in
    let none_new : (id == hid) ≡ false = ground (arith, n) in
    is_chosen-append (filter (stays_selected scope t id) t.selections) (rows_of id ids) hid bid
    ∙ rw (kept, is_chosen-map ids hid id bid, none_new) (ground arith)
