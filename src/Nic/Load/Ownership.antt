-- ===== src/Nic/Load/Ownership.antt =====
-- Which rows a request's names are resolved to.
use atrium_ddns.Prelude.{
  ℕ, ◌≡◌, ◌⊎◌, inl, inr, refl, sym, ap, ◌∙◌, true, false, ◌&&◌, &&_parts, Option, none, some, List,
  [], ◌∷◌, IsIn, All, map, ◌==◌, arith, Option-cases, Bool-cases, IsIn-filter, filter-IsIn, All-map,
  any-some, find?-none,
}
use atrium_ddns.Text.{Text, contains, text_eq, text_eq_sound, text_eq_refl, lower}
use atrium_ddns.Dict.{Dict, get, put}
use atrium_ddns.Dict.Laws.{get-put}
use atrium_ddns.Store.{Tables, Hostname, Domain}
use atrium_ddns.Store.Selection.{domain_of}
use atrium_ddns.Scope.{
  select_hostnames, sees, owns_hostname, for_user_id, predicate, reaches_all_tenants, hostname,
}
use atrium_ddns.Auth.Device.{DeviceAuth, scope}
use atrium_ddns.Nic.Dns.{HostnamePlan}
use atrium_ddns.Nic.Load.{
  Vault, requested_rows, assigned_to, by_name, by_name_from, plan_for, load_plans, unresolved_plan,
  resolved_plan, locked_owners, plan_in,
}

by_name_from-some :
    (d : Dict Hostname) (rows : List Hostname) (k : Text) (row : Hostname)
    → get (by_name_from d rows) k ≡ some row
    → (IsIn row rows × (row.name ≡ k)) ⊎ (get d k ≡ some row)
unfolding by_name_from
by_name_from-some d [] k row h = inr h
by_name_from-some d (r ∷ rows) k row h = elim (by_name_from-some (put d r.name r) rows k row h) [
  | inl (m, e) ↦ inl (inr m, e)
  | inr e ↦ elim (Bool-cases (text_eq r.name k)) [
    | inl q ↦
        let same : r ≡ row = ground (arith, get-put d r.name k r) in
        inl (inl (sym same), ap (λ (x : Hostname). x.name) (sym same) ∙ text_eq_sound r.name k q)
    | inr q ↦ inr (ground (arith, get-put d r.name k r))
  ]
]

by_name_from-none :
    (d : Dict Hostname) (rows : List Hostname) (k : Text)
    → get (by_name_from d rows) k ≡ none
    → (get d k ≡ none) × ((row : Hostname) → IsIn row rows → text_eq row.name k ≡ false)
unfolding by_name_from
by_name_from-none d [] k h = (h, λ row m. elim m [ ])
by_name_from-none d (r ∷ rows) k h =
    let (e, rest) = by_name_from-none (put d r.name r) rows k h in
    (
      ground (arith, get-put d r.name k r),
      λ row m. elim m [
        | inl q ↦ ap (λ (x : Hostname). text_eq x.name k) q ∙ ground (arith, get-put d r.name k r)
        | inr i ↦ rest row i
      ],
    )

-- The device's row: it is assigned to the device, and a domain of the device's owner holds it.
pub record IsMine (t : Tables) (auth : DeviceAuth) (name : Text) (row : Hostname) : Type 0 where
  pub listed : IsIn row t.hostnames
  pub named : row.name ≡ lower name
  pub assigned : assigned_to auth.device.id row ≡ true
  pub owned : owns_hostname t row auth.user_id ≡ true

contains-IsIn : (xs : List Text) (x : Text) → IsIn x xs → contains (map lower xs) (lower x) ≡ true
contains-IsIn [] x m = elim m [ ]
contains-IsIn (y ∷ ys) x m = ground (arith, text_eq_refl (lower y), contains-IsIn ys x)

requested_rows-IsMine :
    (t : Tables) (auth : DeviceAuth) (requested : List Text) (name : Text) (row : Hostname)
    → IsIn row (requested_rows t auth requested)
    → row.name ≡ lower name
    → IsMine t auth name row
unfolding requested_rows select_hostnames for_user_id predicate reaches_all_tenants
requested_rows-IsMine t auth requested name row m e =
    let (b, i) =
      filter-IsIn
        (λ (h : Hostname). contains (map lower requested) h.name && assigned_to auth.device.id h)
        (select_hostnames (scope auth) t) m in
    let (o, j) =
      filter-IsIn (λ (h : Hostname). sees (scope auth) hostname (owns_hostname t h)) t.hostnames
        i in
    record { listed = j; named = e; assigned = (&&_parts _ _ b).1; owned = o }

IsMine-requested_rows :
    (t : Tables) (auth : DeviceAuth) (requested : List Text) (name : Text) (row : Hostname)
    → IsIn name requested
    → IsMine t auth name row
    → IsIn row (requested_rows t auth requested)
unfolding requested_rows select_hostnames for_user_id predicate reaches_all_tenants
IsMine-requested_rows t auth requested name row m mine =
    let asked : contains (map lower requested) row.name ≡ true =
      ap (contains (map lower requested)) mine.named ∙ contains-IsIn requested name m in
    IsIn-filter
      (λ (h : Hostname). contains (map lower requested) h.name && assigned_to auth.device.id h)
      (select_hostnames (scope auth) t)
      (IsIn-filter (λ (h : Hostname). sees (scope auth) hostname (owns_hostname t h)) t.hostnames
        mine.listed mine.owned)
      (ground (arith, asked, mine.assigned))

-- What a name is loaded as.
pub data IsLoaded (vault : Vault) (t : Tables) (auth : DeviceAuth) (locked : List ℕ)
    : HostnamePlan → Type 0 where
  mine :
      (name : Text) (row : Hostname) (d : Domain)
      → IsMine t auth name row
      → domain_of t row ≡ some d
      → IsLoaded vault t auth locked (resolved_plan vault t locked name row d)
  not_mine :
      (name : Text)
      → ((row : Hostname) → ¬ IsMine t auth name row)
      → IsLoaded vault t auth locked (unresolved_plan name)

-- A row that a tenant owns has a domain.
owned_domain :
    (t : Tables) (row : Hostname) (uid : ℕ)
    → owns_hostname t row uid ≡ true
    → ¬ (domain_of t row ≡ none)
owned_domain t row uid h e =
    let (d, m, k) =
      any-some (λ (d : Domain). d.id == row.domain_id && d.user_id == uid) t.domains h in
    let miss = find?-none (λ (d : Domain). d.id == row.domain_id) t.domains e m in
    let hit = &&_parts (d.id == row.domain_id) (d.user_id == uid) k in cc (hit.0, miss)

plan_in_name :
    (vault : Vault) (t : Tables) (locked : List ℕ) (name : Text) (row : Hostname)
    (o : Option Domain)
    → (plan_in vault t locked name row o).requested ≡ name
unfolding unresolved_plan resolved_plan
plan_in_name vault t locked name row none = refl
plan_in_name vault t locked name row (some d) = refl

plan_for_name :
    (vault : Vault) (t : Tables) (locked : List ℕ) (name : Text) (o : Option Hostname)
    → (plan_for vault t locked name o).requested ≡ name
unfolding unresolved_plan resolved_plan
plan_for_name vault t locked name none = refl
plan_for_name vault t locked name (some row) =
    plan_in_name vault t locked name row (domain_of t row)

map_names :
    (vault : Vault) (t : Tables) (locked : List ℕ) (d : Dict Hostname) (names : List Text)
    → map
        (λ plan. plan.requested)
        (map (λ name. plan_for vault t locked name (get d (lower name))) names)
      ≡ names
map_names vault t locked d [] = refl
map_names vault t locked d (name ∷ names) =
    rw (plan_for_name vault t locked name (get d (lower name)), map_names vault t locked d names)
      refl

plan_for-IsLoaded :
    (vault : Vault) (t : Tables) (auth : DeviceAuth) (requested : List Text) (locked : List ℕ)
    (name : Text)
    → IsIn name requested
    → IsLoaded vault t auth locked (
        plan_for vault t locked name (get (by_name (requested_rows t auth requested)) (lower name)))
unfolding by_name
plan_for-IsLoaded vault t auth requested locked name m =
    let rows = requested_rows t auth requested in
    elim (Option-cases (get (by_name_from [] rows) (lower name))) [
      | inl e ↦
          let none_there = by_name_from-none [] rows (lower name) e in
          rw e (
            not_mine name (λ row own. cc (
              none_there.1 row (IsMine-requested_rows t auth requested name row m own),
              ap (λ (s : Text). text_eq s (lower name)) own.named,
              text_eq_refl (lower name),
            )))
      | inr (row, e) ↦ elim (by_name_from-some [] rows (lower name) row e) [
        | inr miss ↦ absurd (cc miss)
        | inl (i, q) ↦
            let own = requested_rows-IsMine t auth requested name row i q in
            elim (Option-cases (domain_of t row)) [
              | inl lost ↦ absurd (owned_domain t row auth.user_id own.owned lost)
              | inr (d, f) ↦ rw e (rw f (mine name row d own f))
            ]
      ]
    ]

-- Every name asked for has one plan, in the order asked: it is resolved to a row of that name which is
-- assigned to the device and held by a domain of its owner, and not resolved when there is none.
pub load_plans-IsLoaded :
    (vault : Vault) (t : Tables) (auth : DeviceAuth) (requested : List Text)
    → All
        (IsLoaded vault t auth (locked_owners vault t (requested_rows t auth requested)))
        (load_plans vault t auth requested)
      × (map (λ plan. plan.requested) (load_plans vault t auth requested) ≡ requested)
unfolding load_plans
load_plans-IsLoaded vault t auth requested =
    let locked = locked_owners vault t (requested_rows t auth requested) in
    let plan : Text → HostnamePlan = λ name.
      plan_for vault t locked name (get (by_name (requested_rows t auth requested)) (lower name)) in
    (
      All-map (IsLoaded vault t auth locked) plan requested
          (plan_for-IsLoaded vault t auth requested locked),
      map_names vault t locked (by_name (requested_rows t auth requested)) requested,
    )
